-- ===== src/Base/Objects.antt =====
-- JavaScript's objects as lists of fields. Their keys are distinct in JavaScript; of equal keys the last
-- counts.
use pertisk_kube_app.Base.{
  String, ◌≡◌, refl, not, ◌&&◌, Option, none, some, if◌then◌else◌, ◌==◌, inl, inr, arith, eq_iff,
  Bool-cases, is_some,
}
use pertisk_kube_app.Base.Json.{Json, undefined, null, obj, Fields, end, field}

-- The own property of a key.
abbrev pub own : String → Fields → Option Json
own key end = none
own key (field k v fs) = elim (own key fs) [
  | some w ↦ some w
  | none ↦ if k == key then some v else none
]

-- o[key] = v
abbrev pub set_field : String → Json → Fields → Fields
set_field key v end = field key v end
set_field key v (field k w fs) =
    let rest = set_field key v fs in
    if k == key && not (is_some (own key fs)) then field k v fs else field k w rest

-- o[key], undefined where it is absent
abbrev pub value_of : Option Json → Json
value_of none = undefined
value_of (some v) = v

-- delete o[key]
abbrev pub delete_field : String → Fields → Fields
delete_field key end = end
delete_field key (field k v fs) =
    let rest = delete_field key fs in if k == key then rest else field k v rest

-- v ?? {}
abbrev pub or_empty : Json → Json
or_empty undefined = obj end
or_empty null = obj end
or_empty v = v

pub own-set_field :
    (q key : String) (v : Json) (fs : Fields)
    → own q (set_field key v fs) ≡ (if key == q then some v else own q fs)
own-set_field q key v end = refl
own-set_field q key v (field k w fs) = elim (Bool-cases (k == key && not (is_some (own key fs)))) [
  | inl e ↦ rw e (ground (arith, eq_iff k key, eq_iff key q, eq_iff k q))
  | inr e ↦ rw e (ground (arith, own-set_field q key v fs, eq_iff k key, eq_iff key q, eq_iff k q))
]

pub own-delete_field :
    (q key : String) (fs : Fields)
    → own q (delete_field key fs) ≡ (if key == q then none else own q fs)
own-delete_field q key end = elim (Bool-cases (key == q)) [ inl e ↦ rw e | inr e ↦ rw e ]
own-delete_field q key (field k v fs) = elim (Bool-cases (k == key)) [
  | inl e ↦ rw e (ground (arith, own-delete_field q key fs, eq_iff k key, eq_iff key q, eq_iff k q))
  | inr e ↦ rw e (ground (arith, own-delete_field q key fs, eq_iff k key, eq_iff key q, eq_iff k q))
]
