-- ===== src/Resources/RoundTrip.antt =====
-- An object that a watch event adds and another deletes, for resources keyed by namespace and name.
use pertisk_kube_app.Base.{
  String, ◌≡◌, ap, ◌∙◌, true, not, ◌&&◌, ◌||◌, inl, inr, some, List, [], ◌∷◌, arith, eq_iff, ◌==◌,
  Bool-cases,
}
use pertisk_kube_app.Base.Text.{member}
use pertisk_kube_app.Base.Distinct.{member-append}
use pertisk_kube_app.Pods.Raw.{has_text}
use pertisk_kube_app.Resources.Kind.{RawItem, Kind, keys, IsLawful, namespaced_key}
use pertisk_kube_app.Resources.Reducer.{upsert, on_update}
use pertisk_kube_app.Resources.Laws.{keys-upsert}
use pertisk_kube_app.Resources.Deletion.{IsOrdinary, keys-on_update_deleted}

-- The row of an object that has a namespace and a name is keyed by them.
pub record IsNamespaced {ℓ κ} {Body : Type ℓ} {T : Type κ} (k : Kind Body T) : Type (ℓ ⊔ κ) where
  pub key-transform :
      (raw : RawItem Body)
      → has_text raw.namespace ≡ true
      → has_text raw.name ≡ true
      → k.get_key (k.transform raw) ≡ namespaced_key raw.namespace raw.name

module _ {ℓ κ} {Body : Type ℓ} {T : Type κ} (k : Kind Body T) (law : IsLawful k) where
  member-upsert :
      (item : T) (rows : List T) (j : String)
      → member j (keys k (upsert k item rows)) ≡ (member j (keys k rows) || k.get_key item == j)
  member-upsert item rows j = elim (Bool-cases (member (k.get_key item) (keys k rows))) [
    | inl e ↦ rw (keys-upsert k law item rows, e) (ground (arith, eq_iff (k.get_key item) j))
    | inr e ↦
        rw (keys-upsert k law item rows, e)
          (member-append j (keys k rows) (k.get_key item ∷ []) ∙ ground arith)
  ]

  on_update_added :
      (ordinary : IsOrdinary k.resource_type) (raw : RawItem Body) (rows : List T)
      → on_update k (some "ADDED") raw rows ≡ upsert k (k.transform raw) rows
  unfolding on_update
  on_update_added ordinary raw rows = ground (arith, ordinary, eq_iff k.resource_type "nodes")

-- For a resource that is neither a node, a namespace, an event nor a Helm release and whose rows are
-- keyed by namespace and name, an object with a namespace and a name is listed by its ADDED event, and
-- its DELETED event after that leaves exactly the rows of the other keys that were listed before.
pub added_deleted {ℓ κ} :
    {Body : Type ℓ} {T : Type κ} (k : Kind Body T) (raw : RawItem Body) (rows : List T) (j : String)
    → IsLawful k
    → IsOrdinary k.resource_type
    → IsNamespaced k
    → has_text raw.namespace ≡ true
    → has_text raw.name ≡ true
    → (member (namespaced_key raw.namespace raw.name) (keys k (on_update k (some "ADDED") raw rows))
        ≡ true)
      × (member j (keys k (on_update k (some "DELETED") raw (on_update k (some "ADDED") raw rows)))
          ≡ (member j (keys k rows) && not (j == namespaced_key raw.namespace raw.name)))
added_deleted k raw rows j law ordinary named ns name = (
  ap (λ l. member key (keys k l)) (on_update_added k law ordinary raw rows)
      ∙ member-upsert k law (k.transform raw) rows key
      ∙ ground (arith, named.key-transform raw ns name, eq_iff (k.get_key (k.transform raw)) key),
  keys-on_update_deleted k raw (on_update k (some "ADDED") raw rows) j ordinary
      ∙ ap (λ l. member j (keys k l) && not (j == key)) (on_update_added k law ordinary raw rows)
      ∙ ap (λ b. b && not (j == key)) (member-upsert k law (k.transform raw) rows j)
      ∙ ground (
        arith,
        named.key-transform raw ns name,
        eq_iff (k.get_key (k.transform raw)) j,
        eq_iff j key,
      ),
)
  where
    key : String
    key = namespaced_key raw.namespace raw.name
