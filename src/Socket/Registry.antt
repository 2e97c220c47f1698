-- ===== src/Socket/Registry.antt =====
-- `realtimeResourceListeners` of frontend/src/hooks/useRealtimeResources.ts: for each resource the
-- set of its listeners, in the order of insertion. A listener is a number.
use pertisk_kube_app.Base.{
  ℕ, String, Bool, false, not, ◌||◌, List, [], ◌∷◌, ◌++◌, map, eqb, if◌then◌else◌, ◌==◌,
}
use pertisk_kube_app.Base.Lists.{filter}
use pertisk_kube_app.Base.Text.{member}

abbrev pub Listeners : Type 0
Listeners = List (String × List ℕ)

abbrev pub resources : Listeners → List String
resources m = map (λ e. e.0) m

-- realtimeResourceListeners.has(r)
abbrev pub has_resource : String → Listeners → Bool
has_resource r m = member r (resources m)

abbrev pub contains : ℕ → List ℕ → Bool
contains l [] = false
contains l (k ∷ ks) = eqb k l || contains l ks

-- listeners.add(listener), on a Set
abbrev pub insert : ℕ → List ℕ → List ℕ
insert l ks = if contains l ks then ks else ks ++ l ∷ []

unfoldable pub add_listener : String → ℕ → Listeners → Listeners
add_listener r l [] = (r, l ∷ []) ∷ []
add_listener r l ((q, ks) ∷ m) =
    if q == r then (q, insert l ks) ∷ m else (q, ks) ∷ add_listener r l m

-- set.delete(listener), and the resource goes with its last listener
unfoldable pub remove_listener : String → ℕ → Listeners → Listeners
remove_listener r l [] = []
remove_listener r l ((q, ks) ∷ m) =
    if q == r
    then elim (filter (λ k. not (eqb k l)) ks) [ [] ↦ m | k ∷ rest ↦ (q, k ∷ rest) ∷ m ]
    else (q, ks) ∷ remove_listener r l m

-- realtimeResourceListeners.get(r)
unfoldable pub listeners_of : String → Listeners → List ℕ
listeners_of r [] = []
listeners_of r ((q, ks) ∷ m) = if q == r then ks else listeners_of r m

abbrev pub all_listeners : Listeners → List ℕ
all_listeners [] = []
all_listeners ((q, ks) ∷ m) = ks ++ all_listeners m
