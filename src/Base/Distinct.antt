-- ===== src/Base/Distinct.antt =====
-- Lists of texts without repetition, and membership of texts.
use pertisk_kube_app.Base.{
  String, ◌≡◌, refl, ap, ◌&&◌, subst, inl, inr, Bool-cases, Bool, true, false, ◌||◌, List, [], ◌∷◌,
  ◌++◌, arith, eq_iff, eq_refl, ◌==◌, ◌∙◌, ◌+◌, ◌≤◌, not,
}
use pertisk_kube_app.Base.Lists.{All, filter, length, length-filter-le}
use pertisk_kube_app.Base.Text.{member}

abbrev pub Distinct : List String → Type 0
Distinct [] = Unit
Distinct (k ∷ ks) = (member k ks ≡ false) × Distinct ks

pub eq_comm : (s t : String) → (s == t) ≡ (t == s)
eq_comm s t = ground (arith, eq_iff s t, eq_iff t s)

pub member-append :
    (k : String) (xs ys : List String) → member k (xs ++ ys) ≡ (member k xs || member k ys)
member-append k [] ys = refl
member-append k (x ∷ xs) ys = ground (arith, member-append k xs ys)

pub Distinct-append :
    (xs ys : List String)
    → Distinct xs
    → Distinct ys
    → All (λ k. member k xs ≡ false) ys
    → Distinct (xs ++ ys)
Distinct-append [] ys dx dy apart = dy
Distinct-append (x ∷ xs) ys (fresh, dx) dy apart =
    (fresh', Distinct-append xs ys dx dy (weaken ys apart))
  where
    weaken :
        (zs : List String)
        → All (λ k. member k (x ∷ xs) ≡ false) zs
        → All (λ k. member k xs ≡ false) zs
    weaken [] h = tt
    weaken (z ∷ zs) (h, hs) = (ground arith, weaken zs hs)

    outside : (zs : List String) → All (λ k. member k (x ∷ xs) ≡ false) zs → member x zs ≡ false
    outside [] h = refl
    outside (z ∷ zs) (h, hs) = ground (arith, eq_comm x z, outside zs hs)

    fresh' : member x (xs ++ ys) ≡ false
    fresh' = ground (arith, member-append x xs ys, outside ys apart)

pub member-of-All :
    (P : String → Bool) (ks : List String) (k : String)
    → All (λ j. P j ≡ false) ks
    → member k ks ≡ true
    → P k ≡ false
member-of-All P [] k h m = cc
member-of-All P (j ∷ js) k (h, hs) m = ground (arith, eq_iff j k, member-of-All P js k hs)

pub All-of-member :
    (P : String → Bool) (ks : List String)
    → ((k : String) → member k ks ≡ true → P k ≡ false)
    → All (λ j. P j ≡ false) ks
All-of-member P [] h = tt
All-of-member P (j ∷ js) h =
    (h j (ground (arith, eq_refl j)), All-of-member P js (λ k m. h k (ground arith)))

pub All-member {ℓ} :
    (P : String → Type ℓ) (ks : List String) (k : String) → All P ks → member k ks ≡ true → P k
All-member P [] k h m = cc
All-member P (j ∷ js) k (h, hs) m = elim (Bool-cases (j == k)) [
  | inl e ↦ subst P ((eq_iff j k).0 e) h
  | inr e ↦ All-member P js k hs (ground arith)
]

pub member-filter :
    (p : String → Bool) (rs : List String) (r : String)
    → member r (filter p rs) ≡ (member r rs && p r)
member-filter p [] r = refl
member-filter p (s ∷ rs) r = elim (Bool-cases (s == r)) [
  | inl e ↦ let agree = ap p ((eq_iff s r).0 e) in ground (arith, member-filter p rs r)
  | inr e ↦ ground (arith, member-filter p rs r)
]

length-filter-member :
    (x : String) (ns : List String)
    → member x ns ≡ true
    → length (filter (λ k. not (k == x)) ns) + 1 ≤ length ns
length-filter-member x [] h = cc
length-filter-member x (n ∷ ns) h = elim (Bool-cases (n == x)) [
  | inl e ↦ rw e (omega (arith, length-filter-le (λ k. not (k == x)) ns))
  | inr e ↦ rw e (omega (arith, length-filter-member x ns (ground arith)))
]

-- Distinct items of a list are no more than its items.
pub length-le_of_subset :
    (xs ns : List String)
    → Distinct xs
    → ((y : String) → member y xs ≡ true → member y ns ≡ true)
    → length xs ≤ length ns
length-le_of_subset [] ns d h = omega arith
length-le_of_subset (x ∷ xs) ns (fresh, d) h =
    let rest = length-le_of_subset xs (filter (λ k. not (k == x)) ns) d (λ y m.
      member-filter (λ k. not (k == x)) ns y ∙ ground (arith, h y (ground arith), eq_iff y x)) in
    omega (arith, length-filter-member x ns (h x (ground (arith, eq_refl x))))
