-- ===== src/ResourceMap/Tests.antt =====
-- The map of a deployment that is collapsed, its replica set and its pod, and of a cycle.
use pertisk_kube_app.Base.{String, ◌≡◌, ◌↔◌, refl, true, some, List, [], ◌∷◌}
use pertisk_kube_app.Base.Text.{member}
use pertisk_kube_app.ResourceMap.{Edge, root_ids, starts, visit_each, visible_node_ids}
use pertisk_kube_app.ResourceMap.Walk.{Origin}
use pertisk_kube_app.ResourceMap.Shown.{visit_each-Leads, visible_node_ids-all}

abbrev resources : List String
resources = "deployment/web" ∷ "replicaset/web-1" ∷ "pod/web-1-x" ∷ []

abbrev owns : List Edge
owns =
    record { source = "deployment/web"; target = "replicaset/web-1" }
    ∷ record { source = "replicaset/web-1"; target = "pod/web-1-x" }
    ∷ []

abbrev shut : List String
shut = "deployment/web" ∷ []

first_pass :
    visit_each resources owns shut ("deployment/web" ∷ []) [] ≡ some ("deployment/web" ∷ [])
unfolding visit_each visible_node_ids
first_pass = refl

both_passes :
    visible_node_ids resources owns shut
    ≡ some ("pod/web-1-x" ∷ "replicaset/web-1" ∷ "deployment/web" ∷ [])
unfolding visible_node_ids
both_passes = refl

around :
    visible_node_ids
      ("a" ∷ "b" ∷ [])
      (record { source = "a"; target = "b" } ∷ record { source = "b"; target = "a" } ∷ [])
      []
    ≡ some ("b" ∷ "a" ∷ [])
unfolding visible_node_ids
around = refl

visit_each-Leads_example :
    (result : List String) × (visit_each resources owns shut
        (starts resources owns shut (root_ids resources owns))
        []
      ≡ some result)
    × ((y : String)
        → (member y result ≡ true)
          ↔ Origin resources owns shut (starts resources owns shut (root_ids resources owns)) y)
visit_each-Leads_example = visit_each-Leads resources owns shut

visible_node_ids-all_example :
    (visible : List String) × (visible_node_ids resources owns shut ≡ some visible)
    × ((y : String) → member y visible ≡ member y resources)
visible_node_ids-all_example = visible_node_ids-all resources owns shut
