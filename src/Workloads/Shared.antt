-- ===== src/Workloads/Shared.antt =====
-- The columns that the rows of frontend/src/hooks/useRealtimeResources.ts share, and the fields of an
-- object's metadata that they are made of. The fields of a row that the hook looks up by name stand
-- in the watched object itself (Resources.Kind).
use pertisk_kube_app.Base.{ℕ, String, Option, none, some, if◌then◌else◌, eqb}
use pertisk_kube_app.Base.Json.{Json, undefined, nullish}
use pertisk_kube_app.Base.Text.{◌<>◌}
use pertisk_kube_app.Pods.Raw.{or_text}
use pertisk_kube_app.Resources.Kind.{RawItem}

pub record Head : Type 0 where
  pub creation_timestamp : Option String
  pub labels : Json
  pub annotations : Json

pub record Columns : Type 0 where
  pub name : String
  pub namespace : String
  pub age : String
  pub labels : Json
  pub annotations : Json

abbrev pub columns {ℓ} : {Body : Type ℓ} → RawItem Body → Head → Columns
columns raw head = record {
  name = or_text raw.name "";
  namespace = or_text raw.namespace "default";
  age = or_text head.creation_timestamp "";
  labels = nullish head.labels undefined;
  annotations = nullish head.annotations undefined;
}

-- `${item.namespace}/${item.name}`
abbrev pub column_key : Columns → String
column_key c = c.namespace <> "/" <> c.name

-- x ?? d and x || d, for a count
abbrev pub count_or : Option ℕ → ℕ → ℕ
count_or none d = d
count_or (some n) d = n

abbrev pub positive_or : Option ℕ → ℕ → ℕ
positive_or none d = d
positive_or (some n) d = if eqb n 0 then d else n
