-- ===== src/Resources/Kind.antt =====
-- What `createRealtimeHook` of frontend/src/hooks/useRealtimeResources.ts is given for a resource,
-- and the parts of its body that depend on the resource.
use pertisk_kube_app.Base.{
  ℕ, String, ◌≡◌, Bool, ◌&&◌, Option, none, some, List, map, if◌then◌else◌, ◌==◌,
}
use pertisk_kube_app.Base.Text.{◌<>◌}
use pertisk_kube_app.Pods.Raw.{has_text}

-- A watched object: the fields that the hook itself reads, and the object. `own_name` and
-- `own_namespace` stand at the top of a Helm release.
pub record RawItem {ℓ} (Body : Type ℓ) : Type ℓ where
  pub namespace : Option String
  pub name : Option String
  pub deletion_timestamp : Option String
  pub own_namespace : Option String
  pub own_name : Option String
  pub body : Body

-- `refresh item prev` is the row that replaces `prev`; `changed prev next` says whether it does;
-- `finish` is applied to a changed list.
pub record Kind {ℓ κ} (Body : Type ℓ) (T : Type κ) : Type (ℓ ⊔ κ) where
  pub resource_type : String
  pub get_key : T → String
  pub transform : RawItem Body → T
  pub refresh : T → T → T
  pub changed : T → T → Bool
  pub finish : List T → List T

abbrev pub keys {ℓ κ} : {Body : Type ℓ} {T : Type κ} → Kind Body T → List T → List String
keys k rows = map k.get_key rows

-- Replacing a row and finishing a list keep the keys.
pub record IsLawful {ℓ κ} {Body : Type ℓ} {T : Type κ} (k : Kind Body T) : Type (ℓ ⊔ κ) where
  pub key-refresh : (item prev : T) → k.get_key (k.refresh item prev) ≡ k.get_key item
  pub keys-finish : (rows : List T) → keys k (k.finish rows) ≡ keys k rows

-- `${x}`, where x may be undefined
abbrev pub shown : Option String → String
shown none = "undefined"
shown (some s) = s

abbrev pub namespaced_key : Option String → Option String → String
namespaced_key ns name = shown ns <> "/" <> shown name

-- The key that a DELETED event names; `none` where it is falsy.
unfoldable pub deleted_key {ℓ} : {Body : Type ℓ} → String → RawItem Body → Option String
deleted_key resource_type raw =
    if resource_type == "helmreleases"
    then (if has_text raw.own_namespace && has_text raw.own_name
        then some (namespaced_key raw.own_namespace raw.own_name)
        else none)
    else if resource_type == "nodes"
    then (if has_text raw.name then raw.name else none)
    else if resource_type == "events"
    then some (namespaced_key raw.namespace raw.name)
    else if resource_type == "namespaces"
    then (if has_text raw.name then raw.name else none)
    else some (namespaced_key raw.namespace raw.name)

-- The interval of the reconciliation with the REST list, in milliseconds.
unfoldable pub reconcile_interval : String → Option ℕ
reconcile_interval resource_type =
    if resource_type == "crds"
    then some 12_000
    else if resource_type == "helmreleases"
    then some 2_000
    else if resource_type == "nodes"
    then some 3_000
    else if resource_type == "ingresses"
    then some 5_000
    else none

-- realtimeSnapshotUrl
unfoldable pub snapshot_url : String → String
snapshot_url resource_type =
    if resource_type == "helmreleases" then "/api/helm/releases" else "/api/" <> resource_type
