-- ===== src/Ingress/Address.antt =====
-- The address of an ingress that a watch event brings: `extractIngressAddress` and
-- `resolveIngressAddressForClass` of frontend/src/utils/ingress.ts. An ingress has the fields that they read,
-- and a load balancer without entries has an empty list.
use pertisk_kube_app.Base.{
  String, ◌≡◌, refl, ap, sym, not, ◌&&◌, Option, none, some, List, [], ◌∷◌, ◌++◌, map,
  if◌then◌else◌, ◌==◌, inl, inr, Bool-cases, Option-cases,
}
use pertisk_kube_app.Base.Lists.{filter}
use pertisk_kube_app.Base.Text.{trim, trimmed, nonempty}
use pertisk_kube_app.Ingress.{Texts, text_at, parts, format_addresses, IngressRow, apply_addresses}

pub record Entry : Type 0 where
  pub ip : Option String
  pub hostname : Option String

pub record IngressObject : Type 0 where
  pub address : Option String
  pub load_balancer_camel : Option (List Entry)
  pub load_balancer : Option (List Entry)
  pub annotations : Texts

-- INGRESS_ADDRESS_ANNOTATIONS
ingress_address_annotations : List String
ingress_address_annotations =
    "external-dns.alpha.kubernetes.io/target" ∷ "external-dns.alpha.kubernetes.io/hostname"
    ∷ "nginx.ingress.kubernetes.io/external-dns" ∷ []

entries_of : IngressObject → List Entry
entries_of raw = elim raw.load_balancer_camel [
  | some entries ↦ entries
  | none ↦ elim raw.load_balancer [ some entries ↦ entries | none ↦ [] ]
]

-- The ip of an entry, or else its host name; blank where it has neither.
entry_address : Entry → String
unfolding trim
entry_address e = if nonempty (trimmed e.ip) then trimmed e.ip else trimmed e.hostname

from_annotations : List String → Texts → List String
unfolding text_at parts trim
from_annotations [] annotations = []
from_annotations (key ∷ names) annotations =
    let rest = from_annotations names annotations in
    elim (text_at key annotations) [
      | none ↦ rest
      | some value ↦ if nonempty (trim value) then parts value ++ rest else rest
    ]

module _ (sort : List String → List String) where
  -- extractIngressAddress
  unfoldable pub extract_address : IngressObject → String
  unfolding entries_of entry_address from_annotations ingress_address_annotations format_addresses
  extract_address raw = elim (filter nonempty (map entry_address (entries_of raw))) [
    | a ∷ rest ↦ format_addresses sort (a ∷ rest)
    | [] ↦ elim (from_annotations ingress_address_annotations raw.annotations) [
      | a ∷ rest ↦ format_addresses sort (a ∷ rest)
      | [] ↦ "-"
    ]
  ]

  -- raw.address where it is a text that says something, else what extractIngressAddress finds
  unfoldable pub own_address : IngressObject → String
  unfolding extract_address trim
  own_address raw = elim raw.address [
    | none ↦ extract_address raw
    | some a ↦ if nonempty (trim a) && not (a == "-") then a else extract_address raw
  ]

  -- resolveIngressAddressForClass
  unfoldable pub resolve_for_class : String → IngressObject → Texts → String
  unfolding text_at own_address
  resolve_for_class ingress_class raw m = elim (text_at ingress_class m) [
    | none ↦ own_address raw
    | some a ↦ if nonempty a && not (a == "-") then a else own_address raw
  ]

-- The row that a watch event makes of an ingress has the address that the controllers' addresses give
-- it: applying them to a row with the ingress's own address gives the row with the resolved one.
pub apply_addresses-own_address :
    (sort : List String → List String) (m : Texts) (key ingress_class : String)
    (raw : IngressObject)
    → apply_addresses m
        (record { key = key; ingress_class = ingress_class; address = own_address sort raw } ∷ [])
      ≡ record {
        key = key;
        ingress_class = ingress_class;
        address = resolve_for_class sort ingress_class raw m;
      }
        ∷ []
unfolding apply_addresses resolve_for_class
apply_addresses-own_address sort m key ingress_class raw =
    elim (Option-cases (text_at ingress_class m)) [
      | inl e ↦ rw (e, apply_addresses, resolve_for_class) refl
      | inr (a, e) ↦
          rw (e, apply_addresses, resolve_for_class)
            (elim (Bool-cases (nonempty a && not (a == "-"))) [
              | inl b ↦ rw b refl
              | inr b ↦ rw b refl
            ])
    ]

-- A row that has its resolved address keeps it when the controllers' addresses are applied again, in a
-- list of any rows that have theirs.
pub apply_addresses-resolved :
    (sort : List String → List String) (m : Texts) (key ingress_class : String)
    (raw : IngressObject) (rows : List IngressRow)
    → apply_addresses m rows ≡ rows
    → apply_addresses m (
        record {
          key = key;
          ingress_class = ingress_class;
          address = resolve_for_class sort ingress_class raw m;
        }
        ∷ rows)
      ≡ record {
        key = key;
        ingress_class = ingress_class;
        address = resolve_for_class sort ingress_class raw m;
      }
        ∷ rows
unfolding apply_addresses resolve_for_class
apply_addresses-resolved sort m key ingress_class raw rows h =
    elim (Option-cases (text_at ingress_class m)) [
      | inl e ↦ rw (e, apply_addresses) (rw h refl)
      | inr (a, e) ↦
          rw (e, apply_addresses)
            (rw h (elim (Bool-cases (nonempty a && not (a == "-"))) [
              | inl b ↦
                  let taken : resolve_for_class sort ingress_class raw m ≡ a =
                    rw (e, resolve_for_class) (rw b refl) in
                  rw b (
                    ap
                      (λ x. record { key = key; ingress_class = ingress_class; address = x } ∷ rows)
                      (sym taken))
              | inr b ↦ rw b refl
            ]))
    ]
