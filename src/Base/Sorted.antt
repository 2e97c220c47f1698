-- ===== src/Base/Sorted.antt =====
-- Lists in the order of a number, cut into the runs of one number.
use pertisk_kube_app.Base.{
  ℕ, suc, ◌≤◌, ◌≡◌, refl, ap, ◌∙◌, inl, inr, List, [], ◌∷◌, ◌++◌, eqb, arith, Bool-cases,
}
use pertisk_kube_app.Base.Lists.{All, All-weaken}

module _ {ℓ} {A : Type ℓ} (f : A → ℕ) where
  -- No item has a lower number than one that stands before it.
  abbrev pub IsSorted : List A → Type 0
  IsSorted [] = Unit
  IsSorted (x ∷ xs) = All (λ y. f x ≤ f y) xs × IsSorted xs

  -- The items of the number `n`, and those above it.
  pub record Cut (n : ℕ) (xs : List A) : Type ℓ where
    pub low : List A
    pub high : List A
    pub split : xs ≡ low ++ high
    pub at_n : All (λ x. f x ≡ n) low
    pub above : All (λ x. suc n ≤ f x) high
    pub sorted : IsSorted high

  pub cut : (n : ℕ) (xs : List A) → IsSorted xs → All (λ x. n ≤ f x) xs → Cut n xs
  cut n [] s h = record { low = []; high = []; split = refl; at_n = tt; above = tt; sorted = tt }
  cut n (x ∷ xs) (first, s) (h, hs) = elim (Bool-cases (eqb (f x) n)) [
    | inl e ↦
        let rest = cut n xs s hs in
        record {
          low = x ∷ rest.low;
          high = rest.high;
          split = ap (λ l. x ∷ l) rest.split;
          at_n = (ground arith, rest.at_n);
          above = rest.above;
          sorted = rest.sorted;
        }
    | inr e ↦
        let over : suc n ≤ f x = ground arith in
        record {
          low = [];
          high = x ∷ xs;
          split = refl;
          at_n = tt;
          above = (
            over,
            All-weaken (λ y. f x ≤ f y) (λ y. suc n ≤ f y) (λ y k. omega (arith, over, k)) xs first,
          );
          sorted = (first, s);
        }
  ]

  -- The five runs of a list whose numbers start at 0, the last of them of all numbers from 4.
  pub record Runs (xs : List A) : Type ℓ where
    pub zeros : List A
    pub ones : List A
    pub twos : List A
    pub threes : List A
    pub others : List A
    pub split : xs ≡ zeros ++ (ones ++ (twos ++ (threes ++ others)))
    pub at_zero : All (λ x. f x ≡ 0) zeros
    pub at_one : All (λ x. f x ≡ 1) ones
    pub at_two : All (λ x. f x ≡ 2) twos
    pub at_three : All (λ x. f x ≡ 3) threes
    pub above : All (λ x. 4 ≤ f x) others

  from_zero : (xs : List A) → All (λ x. 0 ≤ f x) xs
  from_zero [] = tt
  from_zero (x ∷ xs) = (omega arith, from_zero xs)

  pub runs : (xs : List A) → IsSorted xs → Runs xs
  runs xs s =
      let a = cut 0 xs s (from_zero xs) in
      let b = cut 1 a.high a.sorted a.above in
      let c = cut 2 b.high b.sorted b.above in
      let d = cut 3 c.high c.sorted c.above in
      record {
        zeros = a.low;
        ones = b.low;
        twos = c.low;
        threes = d.low;
        others = d.high;
        split =
            a.split
            ∙ ap (λ l. a.low ++ l)
                (b.split ∙ ap (λ l. b.low ++ l) (c.split ∙ ap (λ l. c.low ++ l) d.split));
        at_zero = a.at_n;
        at_one = b.at_n;
        at_two = c.at_n;
        at_three = d.at_n;
        above = d.above;
      }
