-- ===== src/Ingress/Rows.antt =====
-- What the addresses of ingress classes do to the rows.
use pertisk_kube_app.Base.{
  ◌≡◌, refl, sym, ap, ap₂, ◌∙◌, not, ◌&&◌, inl, inr, List, [], ◌∷◌, map, ◌==◌, Bool-cases,
  Option-cases,
}
use pertisk_kube_app.Base.Text.{nonempty}
use pertisk_kube_app.Ingress.{Texts, text_at, IngressRow, apply_addresses}

apply_row :
    (m : Texts) (row : IngressRow) (rows : List IngressRow)
    → (row' : IngressRow) × (apply_addresses m (row ∷ rows) ≡ row' ∷ apply_addresses m rows)
      × (row'.key ≡ row.key)
      × (row'.ingress_class ≡ row.ingress_class)
      × (apply_addresses m (row' ∷ apply_addresses m rows)
          ≡ row' ∷ apply_addresses m (apply_addresses m rows))
unfolding apply_addresses
apply_row m row rows = elim (Option-cases (text_at row.ingress_class m)) [
  | inl e ↦ (row, rw (e, apply_addresses), refl, refl, rw (e, apply_addresses))
  | inr (address, e) ↦ elim (Bool-cases (nonempty address && not (address == "-"))) [
    | inl real ↦ (
      record row { address = address },
      rw (e, real, apply_addresses),
      refl,
      refl,
      rw (e, real, apply_addresses),
    )
    | inr dash ↦ (row, rw (e, dash, apply_addresses), refl, refl, rw (e, dash, apply_addresses))
  ]
]

-- Giving the rows of ingresses the addresses of their classes changes neither their keys nor their
-- classes nor their order, and doing it twice is doing it once.
pub apply_addresses_twice :
    (m : Texts) (rows : List IngressRow)
    → (map (λ row. row.key) (apply_addresses m rows) ≡ map (λ row. row.key) rows)
      × (map (λ row. row.ingress_class) (apply_addresses m rows)
          ≡ map (λ row. row.ingress_class) rows)
      × (apply_addresses m (apply_addresses m rows) ≡ apply_addresses m rows)
apply_addresses_twice m [] = unfold apply_addresses in (refl, refl, refl)
apply_addresses_twice m (row ∷ rows) =
    let (keys, classes, again) = apply_addresses_twice m rows in
    let (row', once, key, class, twice) = apply_row m row rows in
    (
      ap (map (λ r. r.key)) once ∙ ap₂ (λ k ks. k ∷ ks) key keys,
      ap (map (λ r. r.ingress_class)) once ∙ ap₂ (λ k ks. k ∷ ks) class classes,
      ap (apply_addresses m) once ∙ twice ∙ ap (λ l. row' ∷ l) again ∙ sym once,
    )
