-- ===== src/Base/Sets.antt =====
-- Lists of texts as sets: without repetition, and one within the other.
use pertisk_kube_app.Base.{
  String, ◌≡◌, refl, subst, Bool, true, not, inl, inr, List, [], ◌∷◌, ◌==◌, arith, eq_iff, eq_refl,
  Bool-cases,
}
use pertisk_kube_app.Base.Lists.{length, filter, all}
use pertisk_kube_app.Base.Text.{member}
use pertisk_kube_app.Base.Distinct.{Distinct, eq_comm, member-filter, length-le_of_subset}

abbrev pub Within : List String → List String → Type 0
Within xs ys = (k : String) → member k xs ≡ true → member k ys ≡ true

-- new Set(xs)
unfoldable pub unique : List String → List String
unique [] = []
unique (r ∷ rs) = r ∷ filter (λ s. not (s == r)) (unique rs)

pub Distinct-filter : (p : String → Bool) (rs : List String) → Distinct rs → Distinct (filter p rs)
Distinct-filter p [] d = tt
Distinct-filter p (r ∷ rs) (fresh, d) = elim (Bool-cases (p r)) [
  | inl e ↦ rw e (ground (arith, member-filter p rs r), Distinct-filter p rs d)
  | inr e ↦ rw e (Distinct-filter p rs d)
]

pub member-unique : (rs : List String) (r : String) → member r (unique rs) ≡ member r rs
unfolding unique
member-unique [] r = refl
member-unique (s ∷ rs) r =
    ground (arith, member-filter (λ t. not (t == s)) (unique rs) r, member-unique rs r, eq_comm r s)

pub Distinct-unique : (rs : List String) → Distinct (unique rs)
unfolding unique
Distinct-unique [] = tt
Distinct-unique (r ∷ rs) = (
  ground (arith, member-filter (λ t. not (t == r)) (unique rs) r, eq_refl r),
  Distinct-filter (λ t. not (t == r)) (unique rs) (Distinct-unique rs),
)

pub all-of_Within : (ks xs : List String) → Within ks xs → all (λ k. member k xs) ks ≡ true
all-of_Within [] xs w = refl
all-of_Within (k ∷ ks) xs w =
    ground (arith, w k (ground (arith, eq_refl k)), all-of_Within ks xs (λ j m. w j (ground arith)))

pub Within-of_all : (ks xs : List String) → all (λ k. member k xs) ks ≡ true → Within ks xs
Within-of_all [] xs h k m = cc
Within-of_all (j ∷ ks) xs h k m = elim (Bool-cases (j == k)) [
  | inl e ↦ subst (λ x. member x xs ≡ true) ((eq_iff j k).0 e) (ground arith)
  | inr e ↦ Within-of_all ks xs (ground arith) k (ground arith)
]

-- As many distinct texts as there are.
pub Within-of_length :
    (xs ys : List String) → Distinct xs → Within xs ys → length xs ≡ length ys → Within ys xs
Within-of_length xs ys d w same k m = elim (Bool-cases (member k xs)) [
  | inl e ↦ e
  | inr e ↦
      let more =
        length-le_of_subset (k ∷ xs) ys (e, d)
          (λ j n. elim (Bool-cases (k == j)) [
            | inl at_k ↦ subst (λ x. member x ys ≡ true) ((eq_iff k j).0 at_k) m
            | inr off_k ↦ w j (ground arith)
          ]) in
      absurd (omega (arith, more, same))
]
