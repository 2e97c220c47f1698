-- ===== src/Pods/Sync.antt =====
-- `syncPodDetails` of frontend/src/hooks/useRealtimePods.ts: the rows reconciled with the REST
-- list of pods, and the counters of pods that the list misses.
pub mod Rows
pub mod Fields
use pertisk_kube_app.Base.{
  ℕ, ◌+◌, String, Bool, true, false, not, ◌&&◌, ◌||◌, Option, none, some, List, [], ◌∷◌, ◌++◌, map,
  leb, is_some, if◌then◌else◌, ◌==◌,
}
use pertisk_kube_app.Base.Lists.{filter}
use pertisk_kube_app.Base.Text.{member}
use pertisk_kube_app.Pods.Row.{Pod, key_of}
use pertisk_kube_app.Pods.Merge.{reconcile, adopt}

-- apiByKey.get(key): of several entries with one key a Map keeps the last.
unfoldable pub api_row : String → List Pod → Option Pod
api_row key [] = none
api_row key (p ∷ ps) = elim (api_row key ps) [
  | some q ↦ some q
  | none ↦ if key_of p == key then some p else none
]

abbrev pub Counts : Type 0
Counts = List (String × ℕ)

-- apiMissCountsRef.current.get(key) ?? 0
unfoldable pub count_of : String → Counts → ℕ
count_of key [] = 0
count_of key ((k, n) ∷ counts) = if k == key then n else count_of key counts

abbrev pub miss_count : Counts → Pod → ℕ
miss_count counts item = count_of (key_of item) counts + 1

-- What the flatMap makes of one listed row.
unfoldable pub sync_row : Counts → List String → List Pod → Pod → List Pod
unfolding api_row count_of
sync_row counts marked api item = elim (api_row (key_of item) api) [
  | none ↦
      if leb 1 (miss_count counts item) && not (member (key_of item) marked) then [] else item ∷ []
  | some row ↦ reconcile row item ∷ []
]

unfoldable pub sync_rows : Counts → List String → List Pod → List Pod → List Pod
unfolding sync_row
sync_rows counts marked api [] = []
sync_rows counts marked api (item ∷ rows) =
    sync_row counts marked api item ++ sync_rows counts marked api rows

abbrev pub keys : List Pod → List String
keys = map key_of

-- The REST rows that are pushed: neither listed nor recently deleted.
unfoldable pub new_rows : List String → List String → List Pod → List Pod
new_rows existing marked [] = []
new_rows existing marked (p ∷ ps) =
    if not (member (key_of p) existing) && not (member (key_of p) marked)
    then adopt p ∷ new_rows existing marked ps
    else new_rows existing marked ps

unfoldable pub sync : Counts → List String → List Pod → List Pod → List Pod
unfolding sync_rows new_rows
sync counts marked api rows =
    let merged = sync_rows counts marked api rows in merged ++ new_rows (keys merged) marked api

-- nextMissCounts after the flatMap, and after the loop over the merged rows.
unfoldable pub missed : Counts → List Pod → List Pod → Counts
missed counts api [] = []
missed counts api (item ∷ rows) =
    if is_some (api_row (key_of item) api)
    then missed counts api rows
    else (key_of item, miss_count counts item) ∷ missed counts api rows

unfoldable pub seen : Counts → List Pod → List Pod → Counts
seen next api [] = next
seen next api (item ∷ merged) =
    if not (member (key_of item) (map (λ e. e.0) next)) && is_some (api_row (key_of item) api)
    then seen (next ++ (key_of item, 0) ∷ []) api merged
    else seen next api merged

unfoldable pub next_counts : Counts → List String → List Pod → List Pod → Counts
unfolding missed seen sync
next_counts counts marked api rows = seen (missed counts api rows) api (sync counts marked api rows)
