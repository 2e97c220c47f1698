-- ===== src/Display/Merge.antt =====
-- `mergeResourceStatus` of frontend/src/utils/index.ts.
use pertisk_kube_app.Base.{
  String, ◌≡◌, refl, ap, sym, ◌∙◌, Bool, true, false, not, ◌&&◌, Option, none, some, if◌then◌else◌,
  ◌==◌, inl, inr, arith, eq_iff, Bool-cases, Option-cases,
}
use pertisk_kube_app.Base.Json.{Json, arr, obj, cons, Fields, end, field}
use pertisk_kube_app.Base.Objects.{own, set_field, value_of, own-set_field}

-- { ...a, ...b }
abbrev pub spread : Fields → Fields → Fields
spread a end = a
spread a (field k v fs) = spread (set_field k v a) fs

-- The value, where it is an object and not an array, else {}.
abbrev pub object_or_empty : Json → Fields
object_or_empty (obj fs) = fs
object_or_empty _ = end

-- Array.isArray(v) && v.length > 0
abbrev pub has_items : Option Json → Bool
has_items (some (arr (cons _ _))) = true
has_items _ = false

unfoldable pub merge_resource_status : (manifest_status item_status : Json) → Fields
merge_resource_status manifest_status item_status =
    let manifest = object_or_empty manifest_status in
    let item = object_or_empty item_status in
    let merged = spread manifest item in
    if not (has_items (own "addresses" manifest)) && has_items (own "addresses" item)
    then set_field "addresses" (value_of (own "addresses" item)) merged
    else merged

abbrev pub first_of : Option Json → Option Json → Option Json
first_of (some v) o = some v
first_of none o = o

own-spread : (q : String) (a b : Fields) → own q (spread a b) ≡ first_of (own q b) (own q a)
own-spread q a end = refl
own-spread q a (field k v fs) =
    own-spread q (set_field k v a) fs
    ∙ ground (arith, own-set_field q k v a, Option-cases (own q fs), Bool-cases (k == q))

has_items-some : (o : Option Json) → has_items o ≡ true → o ≡ some (value_of o)
has_items-some none e = cc
has_items-some (some v) e = refl

-- The merged status has, under every key, what the item's status has, and what the manifest's has where
-- the item's has nothing: a status that is not an object counts as empty, and the addresses are
-- no exception.
own-merge_resource_status :
    (key : String) (manifest_status item_status : Json)
    → own key (merge_resource_status manifest_status item_status)
      ≡ first_of (own key (object_or_empty item_status)) (own key (object_or_empty manifest_status))
unfolding merge_resource_status
own-merge_resource_status key m i =
    let manifest = object_or_empty m in
    let item = object_or_empty i in
    elim (Bool-cases
      (not (has_items (own "addresses" manifest)) && has_items (own "addresses" item))) [
        | inl e ↦ rw e (
            own-set_field key "addresses" (value_of (own "addresses" item)) (spread manifest item)
            ∙ again manifest item (ground arith))
        | inr e ↦ rw e (own-spread key manifest item)
      ]
  where
    again :
        (manifest item : Fields)
        → has_items (own "addresses" item) ≡ true
        → (if "addresses" == key
            then some (value_of (own "addresses" item))
            else own key (spread manifest item))
          ≡ first_of (own key item) (own key manifest)
    again manifest item e = elim (Bool-cases ("addresses" == key)) [
      | inl same ↦
          let there = has_items-some (own "addresses" item) e in
          let named = ap (λ k. own k item) ((eq_iff "addresses" key).0 same) in
          rw same (rw (sym named ∙ there) refl)
      | inr other ↦ rw other (own-spread key manifest item)
    ]
