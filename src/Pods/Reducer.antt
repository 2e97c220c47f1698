-- ===== src/Pods/Reducer.antt =====
-- The list of rows under one watch event: the updater that `ws.onmessage` hands to `setData` in
-- frontend/src/hooks/useRealtimePods.ts. Where a merged row equals the row that is listed, the
-- source returns the old array; the array with the merged row in its place is the same list.
pub mod Metrics
use pertisk_kube_app.Base.{String, Bool, true, false, not, List, [], ◌∷◌, ◌++◌, if◌then◌else◌, ◌==◌}
use pertisk_kube_app.Base.Lists.{filter, any, update_first, update_all}
use pertisk_kube_app.Base.Text.{member}
use pertisk_kube_app.Pods.Row.{Pod, key_of, same_pod}
use pertisk_kube_app.Pods.Merge.{Action, added, modified, deleted, merge_event}

-- deletedPodsRef.current.add(key), on a set held as a list
unfoldable pub mark : String → List String → List String
mark key keys = if member key keys then keys else key ∷ keys

-- deletedPodsRef.current.delete(key)
unfoldable pub unmark : String → List String → List String
unmark key keys = filter (λ k. not (k == key)) keys

unfoldable pub on_added : List String → Pod → List Pod → List Pod
on_added marked pod rows =
    if member (key_of pod) marked
    then rows
    else if any (same_pod pod) rows
    then update_all (same_pod pod) (merge_event pod) rows
    else rows ++ pod ∷ []

unfoldable pub on_modified : List String → Pod → List Pod → List Pod
on_modified marked pod rows =
    if member (key_of pod) marked
    then rows
    else if any (same_pod pod) rows
    then update_first (same_pod pod) (merge_event pod) rows
    else rows ++ pod ∷ []

unfoldable pub on_deleted : Pod → List Pod → List Pod
on_deleted pod rows = filter (λ item. not (same_pod pod item)) rows

-- The rows after an event, and the marks of recently deleted pods.
unfoldable pub apply_event : Action → Pod → List Pod × List String → List Pod × List String
unfolding on_added on_modified on_deleted mark
apply_event added pod (rows, marked) = (on_added marked pod rows, marked)
apply_event modified pod (rows, marked) = (on_modified marked pod rows, marked)
apply_event deleted pod (rows, marked) = (on_deleted pod rows, mark (key_of pod) marked)
