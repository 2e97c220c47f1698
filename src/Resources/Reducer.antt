-- ===== src/Resources/Reducer.antt =====
-- The updaters that a resource hook hands to `setData` for a `resource_update` message
-- (frontend/src/hooks/useRealtimeResources.ts).
use pertisk_kube_app.Base.{
  String, Bool, false, not, ◌&&◌, ◌||◌, Option, none, some, List, [], ◌∷◌, ◌++◌, if◌then◌else◌,
  ◌==◌,
}
use pertisk_kube_app.Base.Lists.{filter, any}
use pertisk_kube_app.Base.Text.{to_upper}
use pertisk_kube_app.Pods.Raw.{has_text}
use pertisk_kube_app.Resources.Kind.{RawItem, Kind, deleted_key}

module _ {ℓ κ} {Body : Type ℓ} {T : Type κ} (k : Kind Body T) where
  abbrev pub has_key : String → T → Bool
  has_key key row = k.get_key row == key

  -- The row at the index that `findIndex` returns, and what is put in its place.
  unfoldable pub replace : T → List T → List T
  replace item [] = []
  replace item (row ∷ rows) =
      if has_key (k.get_key item) row
      then (if k.changed row (k.refresh item row) then k.refresh item row else row) ∷ rows
      else row ∷ replace item rows

  -- Whether the row that is found is replaced: the list stays as it is otherwise.
  unfoldable pub replaces : T → List T → Bool
  replaces item [] = false
  replaces item (row ∷ rows) =
      if has_key (k.get_key item) row
      then k.changed row (k.refresh item row)
      else replaces item rows

  -- ADDED and MODIFIED
  unfoldable pub upsert : T → List T → List T
  unfolding replace replaces
  upsert item rows =
      if any (has_key (k.get_key item)) rows
      then (if replaces item rows then k.finish (replace item rows) else rows)
      else k.finish (rows ++ item ∷ [])

  unfoldable pub remove : String → List T → List T
  remove key rows = filter (λ row. not (has_key key row)) rows

  abbrev pub remove? : Option String → List T → List T
  remove? none rows = rows
  remove? (some key) rows = if key == "" then rows else remove key rows

  -- A `resource_update` message that carries an object.
  unfoldable pub on_update : Option String → RawItem Body → List T → List T
  unfolding remove upsert to_upper deleted_key
  on_update action raw rows = elim action [
    | none ↦ rows
    | some word ↦
        let action' = to_upper word in
        let writes = action' == "ADDED" || action' == "MODIFIED" in
        if k.resource_type == "nodes"
          && (writes && (has_text raw.deletion_timestamp && has_text raw.name))
        then remove? raw.name rows
        else if action' == "DELETED"
        then remove? (deleted_key k.resource_type raw) rows
        else if writes
        then upsert (k.transform raw) rows
        else rows
  ]
