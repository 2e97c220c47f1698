-- ===== src/Pods/Sync/Fields.antt =====
-- What a reconciliation with the REST list does to a listed row, and that the counters of misses
-- have no part in it.
use pertisk_kube_app.Base.{
  String, ◌≡◌, refl, false, ◌&&◌, ◌||◌, inl, inr, List, [], ◌∷◌, ◌++◌, arith, ap, ap₂, Option-cases,
}
use pertisk_kube_app.Base.Json.{truthy}
use pertisk_kube_app.Pods.Row.{Pod, key_of}
use pertisk_kube_app.Pods.Merge.{reconcile, has_metric_value, is_healthy_pod_status}
use pertisk_kube_app.Pods.Reducer.Metrics.{keep_metric_real}
use pertisk_kube_app.Pods.Sync.{Counts, api_row, sync_row, sync_rows, new_rows, sync, keys}

-- A reconciled row keeps its key, and shows a real CPU or memory figure just if the REST row or the
-- row before it did; where its status or its display status is healthy it shows no error.
reconcile_fields :
    (api item : Pod)
    → (key_of (reconcile api item) ≡ key_of item)
      × (has_metric_value (reconcile api item).cpu
          ≡ (has_metric_value api.cpu || has_metric_value item.cpu))
      × (has_metric_value (reconcile api item).memory
          ≡ (has_metric_value api.memory || has_metric_value item.memory))
      × (((is_healthy_pod_status (reconcile api item).status
              || is_healthy_pod_status (reconcile api item).display_status)
            && truthy (reconcile api item).last_error)
          ≡ false)
unfolding reconcile
reconcile_fields api item =
    (refl, keep_metric_real api.cpu item.cpu, keep_metric_real api.memory item.memory, ground arith)

sync_row_ignores_counts :
    (c d : Counts) (marked : List String) (api : List Pod) (item : Pod)
    → sync_row c marked api item ≡ sync_row d marked api item
unfolding sync_row
sync_row_ignores_counts c d marked api item = elim (Option-cases (api_row (key_of item) api)) [
  | inl e ↦ rw (e, sync_row) (ground arith)
  | inr (r, e) ↦ rw (e, sync_row)
]

sync_rows_ignores_counts :
    (c d : Counts) (marked : List String) (api rows : List Pod)
    → sync_rows c marked api rows ≡ sync_rows d marked api rows
unfolding sync_rows
sync_rows_ignores_counts c d marked api [] = refl
sync_rows_ignores_counts c d marked api (q ∷ rows) =
    ap₂ ◌++◌ (sync_row_ignores_counts c d marked api q)
      (sync_rows_ignores_counts c d marked api rows)

-- The counters of misses do not change what a reconciliation lists: whatever they hold, the rows
-- are the same.
pub sync_ignores_counts :
    (c d : Counts) (marked : List String) (api rows : List Pod)
    → sync c marked api rows ≡ sync d marked api rows
unfolding sync
sync_ignores_counts c d marked api rows =
    ap (λ (merged : List Pod). merged ++ new_rows (keys merged) marked api)
      (sync_rows_ignores_counts c d marked api rows)
