-- ===== src/NodeRoles/Tests.antt =====
-- Runs of the sorting of roles, and its theorems at concrete roles.
use pertisk_kube_app.Base.{String, ◌≡◌, refl, true, List, [], ◌∷◌}
use pertisk_kube_app.Base.Text.{member}
use pertisk_kube_app.Base.Distinct.{Distinct}
use pertisk_kube_app.NodeRoles.{Order, same, rank, compare_labels, sort_roles}
use pertisk_kube_app.NodeRoles.Sorted.{IsGrouped, sort_roles-IsGrouped}

-- An order that takes all texts for equal.
abbrev flat : String → String → Order
flat a b = same

abbrev roles : List String
roles = "worker" ∷ "" ∷ "gpu" ∷ "Control-Plane" ∷ "worker" ∷ []

sorted : sort_roles flat roles ≡ "Control-Plane" ∷ "worker" ∷ "gpu" ∷ []
unfolding sort_roles compare_labels rank
sorted = refl

sort_roles-IsGrouped_example :
    IsGrouped (sort_roles flat roles)
    × Distinct (sort_roles flat roles)
    × (member "gpu" (sort_roles flat roles) ≡ true)
sort_roles-IsGrouped_example = sort_roles-IsGrouped flat roles "gpu"
