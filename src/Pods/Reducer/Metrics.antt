-- ===== src/Pods/Reducer/Metrics.antt =====
-- What a row keeps when a watch event or a REST list replaces it.
use pertisk_kube_app.Base.{
  String, ◌≡◌, ◌≢◌, refl, ap, true, false, ◌||◌, inl, inr, Option, none, some, List, [], ◌∷◌, ◌++◌,
  arith, eq_refl, if◌then◌else◌, Bool-cases,
}
use pertisk_kube_app.Base.Json.{Json, str}
use pertisk_kube_app.Base.Lists.{find, any, find-any, update_first, update_all}
use pertisk_kube_app.Base.Text.{member}
use pertisk_kube_app.Pods.Row.{Pod, RawPod, key_of, same_pod, transform_pod}
use pertisk_kube_app.Pods.Merge.{
  Action, added, modified, deleted, merge_event, keep_metric, has_metric_value,
}
use pertisk_kube_app.Pods.Reducer.{apply_event, on_added, on_modified}

module _ (p : Pod) (f : Pod → Pod)
    (keeps : (q : Pod) → same_pod p q ≡ true → same_pod p (f q) ≡ true) where
  find-update_all :
      (rows : List Pod) (q : Pod)
      → find (same_pod p) rows ≡ some q
      → find (same_pod p) (update_all (same_pod p) f rows) ≡ some (f q)
  find-update_all [] q e = cc
  find-update_all (r ∷ rows) q e = elim (Bool-cases (same_pod p r)) [
    | inl same ↦ let e' : r ≡ q = ground arith in rw (same, keeps r same) (ap some (ap f e'))
    | inr other ↦ rw (other, other) (find-update_all rows q (ground arith))
  ]

  find-update_first :
      (rows : List Pod) (q : Pod)
      → find (same_pod p) rows ≡ some q
      → find (same_pod p) (update_first (same_pod p) f rows) ≡ some (f q)
  find-update_first [] q e = cc
  find-update_first (r ∷ rows) q e = elim (Bool-cases (same_pod p r)) [
    | inl same ↦ let e' : r ≡ q = ground arith in rw (same, keeps r same) (ap some (ap f e'))
    | inr other ↦ rw (other, other) (find-update_first rows q (ground arith))
  ]

find-append_new :
    (p : Pod) (rows : List Pod)
    → any (same_pod p) rows ≡ false
    → find (same_pod p) (rows ++ p ∷ []) ≡ some p
find-append_new p [] h = ground (arith, eq_refl p.name, eq_refl p.namespace)
find-append_new p (r ∷ rows) h = ground (arith, find-append_new p rows)

any_of_find :
    (p : Pod) (rows : List Pod) (q : Pod)
    → find (same_pod p) rows ≡ some q
    → any (same_pod p) rows ≡ true
any_of_find p rows q e = ground (arith, find-any (same_pod p) rows)

same-merge_event : (p q : Pod) → same_pod p (merge_event p q) ≡ true
unfolding merge_event
same-merge_event p q = ground (arith, eq_refl p.name, eq_refl p.namespace)

pub keep_metric_real :
    (next prev : Json)
    → has_metric_value (keep_metric next prev) ≡ (has_metric_value next || has_metric_value prev)
unfolding keep_metric has_metric_value
keep_metric_real next prev = elim (Bool-cases (has_metric_value next)) [
  | inl e ↦ ground (arith, e)
  | inr e ↦ ground (arith, e)
]

keep_metric_dash :
    (prev : Json) → keep_metric (str "-") prev ≡ (if has_metric_value prev then prev else str "-")
unfolding keep_metric has_metric_value
keep_metric_dash prev = ground arith

-- `q'` shows the real figures of `q`, and a dash where `q` has none.
abbrev pub KeepsMetrics : Pod → Pod → Type 0
KeepsMetrics q q' =
    (q'.cpu ≡ (if has_metric_value q.cpu then q.cpu else str "-"))
    × (q'.memory ≡ (if has_metric_value q.memory then q.memory else str "-"))

merge-KeepsMetrics : (raw : RawPod) (q : Pod) → KeepsMetrics q (merge_event (transform_pod raw) q)
unfolding merge_event transform_pod
merge-KeepsMetrics raw q = (keep_metric_dash q.cpu, keep_metric_dash q.memory)

-- The row of the pod after an event that is not ignored: the merged row, or the new row.
abbrev landed : Pod → Option Pod → Pod
landed pod none = pod
landed pod (some q) = merge_event pod q

find-on_added :
    (marked : List String) (pod : Pod) (rows : List Pod) (o : Option Pod)
    → member (key_of pod) marked ≡ false
    → find (same_pod pod) rows ≡ o
    → find (same_pod pod) (on_added marked pod rows) ≡ some (landed pod o)
unfolding on_added
find-on_added marked pod rows none free e =
    let fresh : any (same_pod pod) rows ≡ false = ground (arith, find-any (same_pod pod) rows) in
    rw (on_added, free, fresh) (find-append_new pod rows fresh)
find-on_added marked pod rows (some q) free e =
    rw (on_added, free, any_of_find pod rows q e)
      (find-update_all pod (merge_event pod) (λ r _. same-merge_event pod r) rows q e)

find-on_modified :
    (marked : List String) (pod : Pod) (rows : List Pod) (o : Option Pod)
    → member (key_of pod) marked ≡ false
    → find (same_pod pod) rows ≡ o
    → find (same_pod pod) (on_modified marked pod rows) ≡ some (landed pod o)
unfolding on_modified
find-on_modified marked pod rows none free e =
    let fresh : any (same_pod pod) rows ≡ false = ground (arith, find-any (same_pod pod) rows) in
    rw (on_modified, free, fresh) (find-append_new pod rows fresh)
find-on_modified marked pod rows (some q) free e =
    rw (on_modified, free, any_of_find pod rows q e)
      (find-update_first pod (merge_event pod) (λ r _. same-merge_event pod r) rows q e)

find-apply_event :
    (action : Action) (marked : List String) (pod : Pod) (rows : List Pod) (o : Option Pod)
    → action ≢ deleted
    → member (key_of pod) marked ≡ false
    → find (same_pod pod) rows ≡ o
    → find (same_pod pod) (apply_event action pod (rows, marked)).0 ≡ some (landed pod o)
unfolding apply_event
find-apply_event added marked pod rows o h free e = find-on_added marked pod rows o free e
find-apply_event modified marked pod rows o h free e = find-on_modified marked pod rows o free e
find-apply_event deleted marked pod rows o h free e = absurd (h refl)

status-landed : (pod : Pod) (o : Option Pod) → (landed pod o).status ≡ pod.status
unfolding merge_event
status-landed pod none = refl
status-landed pod (some q) = refl

-- An ADDED or MODIFIED event for a pod that is not marked as deleted lists the pod, with the status
-- that the watched object has.
apply_event-lists :
    (action : Action) (pod : Pod) (rows : List Pod) (marked : List String)
    → action ≢ deleted
    → member (key_of pod) marked ≡ false
    → (q : Pod) × (find (same_pod pod) (apply_event action pod (rows, marked)).0 ≡ some q)
      × (q.status ≡ pod.status)
apply_event-lists action pod rows marked h free =
    let o = find (same_pod pod) rows in
    (landed pod o, find-apply_event action marked pod rows o h free refl, status-landed pod o)

-- A watch event other than DELETED, for a listed pod that is not marked as deleted, keeps the CPU
-- and memory that its row shows, a dash where it shows none, although a watched object carries no metrics.
pub metrics_survive_event :
    (action : Action) (raw : RawPod) (rows : List Pod) (marked : List String) (q : Pod)
    → action ≢ deleted
    → member (key_of (transform_pod raw)) marked ≡ false
    → find (same_pod (transform_pod raw)) rows ≡ some q
    → (q' : Pod) × (find
          (same_pod (transform_pod raw))
          (apply_event action (transform_pod raw) (rows, marked)).0
        ≡ some q')
      × KeepsMetrics q q'
metrics_survive_event action raw rows marked q h free e =
    let pod = transform_pod raw in
    (
      merge_event pod q,
      find-apply_event action marked pod rows (some q) h free e,
      merge-KeepsMetrics raw q,
    )
