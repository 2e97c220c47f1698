-- ===== src/Resources/Deletion.antt =====
-- What a DELETED event removes, by the way in which a resource's rows are keyed.
use text.Mathlib.TextLemmas.{nil-append, cons-append, append_assoc, append-eq-nil_iff}
use pertisk_kube_app.Base.{
  String, ◌≡◌, ◌≢◌, refl, ap, subst, ◌∙◌, false, not, ◌&&◌, some, List, [], ◌∷◌, arith, eq_iff,
  ◌==◌, ≢→==-false,
}
use pertisk_kube_app.Base.Lists.{All}
use pertisk_kube_app.Base.Text.{member, ◌<>◌}
use pertisk_kube_app.Pods.Keys.{NoSlash, slash-append}
use pertisk_kube_app.Resources.Kind.{RawItem, Kind, keys, deleted_key, shown, namespaced_key}
use pertisk_kube_app.Resources.Laws.{member-remove, remove-absent}
use pertisk_kube_app.Resources.Reducer.{remove, remove?, on_update}

slash-not-NoSlash : (a b : String) → ¬ NoSlash (a <> ("/" <> b))
slash-not-NoSlash String.[] b h =
    let h' : NoSlash ("/" <> b) = subst NoSlash (nil-append ("/" <> b)) h in
    (subst NoSlash (slash-append b) h').0 refl
slash-not-NoSlash (String.◌∷◌ c a) b h =
    slash-not-NoSlash a b (subst NoSlash (cons-append c a ("/" <> b)) h).1

-- A resource whose DELETED events are keyed by namespace and name.
pub record IsOrdinary (resource_type : String) : Type 0 where
  pub not_helm : resource_type ≢ "helmreleases"
  pub not_nodes : resource_type ≢ "nodes"
  pub not_events : resource_type ≢ "events"
  pub not_namespaces : resource_type ≢ "namespaces"

module _ {ℓ κ} {Body : Type ℓ} {T : Type κ} (k : Kind Body T)
    (ordinary : IsOrdinary k.resource_type) (raw : RawItem Body) where
  key-ordinary : deleted_key k.resource_type raw ≡ some (namespaced_key raw.namespace raw.name)
  unfolding deleted_key
  key-ordinary = ground (
    arith,
    ordinary,
    eq_iff k.resource_type "helmreleases",
    eq_iff k.resource_type "nodes",
    eq_iff k.resource_type "events",
    eq_iff k.resource_type "namespaces",
  )

  pub key-ne-blank : (namespaced_key raw.namespace raw.name == "") ≡ false
  key-ne-blank = ≢→==-false _ "" (λ e.
      let slash = (append-eq-nil_iff.0 (append-eq-nil_iff.0 e).0).1 in
      let lie = (eq_iff "/" "").1 slash in cc)

  on_update_deleted :
      (rows : List T)
      → on_update k (some "DELETED") raw rows
        ≡ remove k (namespaced_key raw.namespace raw.name) rows
  unfolding on_update
  on_update_deleted rows =
      ground (arith, key-ordinary, key-ne-blank, ap (λ o. remove? k o rows) key-ordinary)

-- For a resource that is neither a node, a namespace, an event nor a Helm release, a DELETED event
-- takes the row of its namespace and name out of the list, and no other.
pub keys-on_update_deleted {ℓ κ} :
    {Body : Type ℓ} {T : Type κ} (k : Kind Body T) (raw : RawItem Body) (rows : List T) (j : String)
    → IsOrdinary k.resource_type
    → member j (keys k (on_update k (some "DELETED") raw rows))
      ≡ (member j (keys k rows) && not (j == namespaced_key raw.namespace raw.name))
keys-on_update_deleted k raw rows j ordinary =
    ap (λ l. member j (keys k l)) (on_update_deleted k ordinary raw rows)
    ∙ member-remove k (namespaced_key raw.namespace raw.name) rows j

absent_of_NoSlash :
    (ks : List String) (a b : String) → All NoSlash ks → member (a <> "/" <> b) ks ≡ false
absent_of_NoSlash [] a b h = refl
absent_of_NoSlash (key ∷ ks) a b (h, hs) = ground (
  arith,
  absent_of_NoSlash ks a b hs,
  ≢→==-false key (a <> "/" <> b)
      (λ e. slash-not-NoSlash a b (subst NoSlash (e ∙ append_assoc a "/" b) h)),
)

-- For a resource that is neither nodes, namespaces, events nor Helm releases, and whose rows are keyed by a
-- name without a slash (persistent volumes, storage classes and cluster roles among them), a DELETED
-- event keeps every row: it never takes a row off the list.
pub cluster_scoped_keeps_deleted {ℓ κ} :
    {Body : Type ℓ} {T : Type κ} (k : Kind Body T) (raw : RawItem Body) (rows : List T)
    → IsOrdinary k.resource_type
    → All NoSlash (keys k rows)
    → on_update k (some "DELETED") raw rows ≡ rows
cluster_scoped_keeps_deleted k raw rows ordinary plain =
    on_update_deleted k ordinary raw rows
    ∙ remove-absent k (namespaced_key raw.namespace raw.name) rows
        (absent_of_NoSlash (keys k rows) (shown raw.namespace) (shown raw.name) plain)
