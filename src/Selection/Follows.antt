-- ===== src/Selection/Follows.antt =====
-- What a detail panel shows after its effect has run.
use pertisk_kube_app.Base.{
  String, ◌≡◌, refl, ap, true, false, not, inl, inr, Option, none, some, List, [], ◌∷◌, arith,
  eq_iff, eq_refl, Bool-cases,
}
use pertisk_kube_app.Base.Lists.{find}
use pertisk_kube_app.Resources.Kind.{Kind}
use pertisk_kube_app.Selection.{Panel, is_key, follows, rows_of, differs_from, show, sync_selected}

module _ {ℓ} {T : Type ℓ} (stringify : T → String) (match_key : T → String) where
  -- The row with the panel's key, as the list has it.
  abbrev pub row_of : Panel T → Option T
  row_of p = find (λ item. is_key p.selected_key (match_key item)) (rows_of p.items)

  abbrev pub text_of : Option T → Option String
  text_of none = none
  text_of (some x) = some (stringify x)

  differs_from-false :
      (item : Option T) (row : T)
      → differs_from stringify match_key item row ≡ false
      → text_of item ≡ some (stringify row)
  differs_from-false none row e = cc
  differs_from-false (some x) row e = ground (arith, eq_iff (stringify row) (stringify x))

  differs_from_self : (row : T) → differs_from stringify match_key (some row) row ≡ false
  differs_from_self row = ap not (eq_refl (stringify row))

  text_of-show :
      (o : Option T) (p : Panel T)
      → text_of (show stringify match_key o p).selected_item ≡ text_of o
  unfolding show
  text_of-show none p = refl
  text_of-show (some row) p =
      elim (Bool-cases (differs_from stringify match_key p.selected_item row)) [
        | inl e ↦ rw e refl
        | inr e ↦ rw e (differs_from-false p.selected_item row e)
      ]

  -- With an item put in its place, the effect still goes on; with none, it does not.
  follows-some :
      (row : T) (p : Panel T)
      → follows p ≡ true
      → follows (record p { selected_item = some row }) ≡ true
  follows-some row p e = ground arith

  follows-none : (p : Panel T) → follows (record p { selected_item = none }) ≡ false
  follows-none p = ground arith

  sync-show :
      (o : Option T) (p : Panel T)
      → row_of p ≡ o
      → follows p ≡ true
      → sync_selected stringify match_key (show stringify match_key o p)
        ≡ show stringify match_key o p
  unfolding show sync_selected
  sync-show none p o e = rw (follows-none p) refl
  sync-show (some row) p o e =
      elim (Bool-cases (differs_from stringify match_key p.selected_item row)) [
        | inl d ↦ rw d (rw (follows-some row p e) (rw o (rw (differs_from_self row) refl)))
        | inr d ↦ rw d (rw e (rw o (rw d refl)))
      ]

-- After the effect, a panel that is open, with a key, an item and a list that is not empty, shows what
-- is written of the first row with its key, and nothing where no row has it.
sync_selected-shows {ℓ} :
    {T : Type ℓ} (stringify match_key : T → String) (p : Panel T)
    → follows p ≡ true
    → text_of stringify match_key (sync_selected stringify match_key p).selected_item
      ≡ text_of stringify match_key (row_of stringify match_key p)
unfolding sync_selected
sync_selected-shows stringify match_key p e =
    rw (e, sync_selected) (text_of-show stringify match_key (row_of stringify match_key p) p)

-- The effect settles: run again on what it leaves, it changes nothing.
pub sync_selected-settles {ℓ} :
    {T : Type ℓ} (stringify match_key : T → String) (p : Panel T)
    → sync_selected stringify match_key (sync_selected stringify match_key p)
      ≡ sync_selected stringify match_key p
unfolding sync_selected
sync_selected-settles stringify match_key p = elim (Bool-cases (follows p)) [
  | inl e ↦
      rw (e, sync_selected) (sync-show stringify match_key (row_of stringify match_key p) p refl e)
  | inr e ↦ rw (e, sync_selected) (rw e refl)
]

abbrev pub none_if_listed {ℓ} : {T : Type ℓ} → T → List T → Option T
none_if_listed item [] = some item
none_if_listed item (_ ∷ _) = none
