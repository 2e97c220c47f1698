-- ===== src/Resources/Laws.antt =====
-- What the updaters of a resource hook do to the keys of its list.
use mathlib.Core.List.{map-append}
use pertisk_kube_app.Base.{
  String, ◌≡◌, refl, sym, ◌∙◌, false, not, ◌&&◌, inl, inr, List, [], ◌∷◌, ◌++◌, arith, eq_iff,
  if◌then◌else◌, ◌==◌, Bool-cases,
}
use pertisk_kube_app.Base.Lists.{any}
use pertisk_kube_app.Base.Text.{member}
use pertisk_kube_app.Base.Distinct.{Distinct, Distinct-append}
use pertisk_kube_app.Resources.Kind.{Kind, keys, IsLawful}
use pertisk_kube_app.Resources.Reducer.{has_key, replace, replaces, upsert, remove}

module _ {ℓ κ} {Body : Type ℓ} {T : Type κ} (k : Kind Body T) where
  any-has_key : (key : String) (rows : List T) → any (has_key k key) rows ≡ member key (keys k rows)
  any-has_key key [] = refl
  any-has_key key (row ∷ rows) = rw (any-has_key key rows)

  pub member-remove :
      (key : String) (rows : List T) (j : String)
      → member j (keys k (remove k key rows)) ≡ (member j (keys k rows) && not (j == key))
  unfolding remove
  member-remove key [] j = refl
  member-remove key (row ∷ rows) j = ground (
    arith,
    member-remove key rows j,
    eq_iff (k.get_key row) key,
    eq_iff (k.get_key row) j,
    eq_iff j key,
  )

  pub Distinct-remove :
      (key : String) (rows : List T)
      → Distinct (keys k rows)
      → Distinct (keys k (remove k key rows))
  unfolding remove
  Distinct-remove key [] d = tt
  Distinct-remove key (row ∷ rows) (fresh, d) = elim (Bool-cases (k.get_key row == key)) [
    | inl e ↦ rw e (Distinct-remove key rows d)
    | inr e ↦
        rw e (ground (arith, member-remove key rows (k.get_key row)), Distinct-remove key rows d)
  ]

  pub remove-absent :
      (key : String) (rows : List T) → member key (keys k rows) ≡ false → remove k key rows ≡ rows
  unfolding remove
  remove-absent key [] h = refl
  remove-absent key (row ∷ rows) h = ground (arith, remove-absent key rows)

module _ {ℓ κ} {Body : Type ℓ} {T : Type κ} (k : Kind Body T) (law : IsLawful k) where
  keys-replace : (item : T) (rows : List T) → keys k (replace k item rows) ≡ keys k rows
  unfolding replace
  keys-replace item [] = refl
  keys-replace item (row ∷ rows) = ground (
    arith,
    keys-replace item rows,
    law.key-refresh item row,
    eq_iff (k.get_key row) (k.get_key item),
  )

  -- After an upsert the key of the item is listed, once more only if it was not, and so are the
  -- other keys that were.
  pub keys-upsert :
      (item : T) (rows : List T)
      → keys k (upsert k item rows) ≡ (
          if member (k.get_key item) (keys k rows)
          then keys k rows
          else keys k rows ++ k.get_key item ∷ [])
  unfolding upsert
  keys-upsert item rows = elim (Bool-cases (any (has_key k (k.get_key item)) rows)) [
    | inl e ↦ elim (Bool-cases (replaces k item rows)) [
      | inl c ↦
          rw (upsert, e, c, sym (any-has_key k (k.get_key item) rows) ∙ e)
            (law.keys-finish (replace k item rows) ∙ keys-replace item rows)
      | inr c ↦ rw (upsert, e, c, sym (any-has_key k (k.get_key item) rows) ∙ e)
    ]
    | inr e ↦
        rw (upsert, e, sym (any-has_key k (k.get_key item) rows) ∙ e)
          (law.keys-finish (rows ++ item ∷ []) ∙ rw map-append)
  ]

  pub Distinct-upsert :
      (item : T) (rows : List T) → Distinct (keys k rows) → Distinct (keys k (upsert k item rows))
  Distinct-upsert item rows d = elim (Bool-cases (member (k.get_key item) (keys k rows))) [
    | inl e ↦ rw (keys-upsert item rows, e) d
    | inr e ↦
        rw (keys-upsert item rows, e)
          (Distinct-append (keys k rows) (k.get_key item ∷ []) d (refl, tt) (e, tt))
  ]
