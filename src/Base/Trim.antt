-- ===== src/Base/Trim.antt =====
-- A trimmed text is trimmed.
use Prim.Native.Char.{Char, code}
use Prim.Native.String.{String, [], ◌∷◌}
use Prim.Native.String.compare.{cons-nil}
use text.Mathlib.Text.{is_eq}
use text.Mathlib.TextLemmas.{nil-append, cons-append}
use pertisk_kube_app.Base.Json.{digit, decimal_from, decimal}
use pertisk_kube_app.Base.{
  ℕ, suc, ◌/◌, ◌%◌, ltb, eqb, Bool, ◌≡◌, refl, sym, ap, ◌∙◌, true, false, ◌&&◌, inl, inr,
  if◌then◌else◌, ◌==◌, Bool-cases,
}
use pertisk_kube_app.Base.Text.{◌<>◌, is_space, trim_start, trim_end, trim}

trim_end-twice : (s : String) → trim_end (trim_end s) ≡ trim_end s
unfolding trim_end
trim_end-twice [] = refl
trim_end-twice (c ∷ s) = elim (Bool-cases (is_space (code c) && trim_end s == "")) [
  | inl e ↦ rw (e, trim_end) refl
  | inr e ↦ rw (e, trim_end) (rw (trim_end-twice s, e) refl)
]

start-solid : (c : Char) (s : String) → is_space (code c) ≡ false → trim_start (c ∷ s) ≡ c ∷ s
unfolding trim_start
start-solid c s e = rw (e, trim_start) refl

start-space : (c : Char) (s : String) → is_space (code c) ≡ true → trim_start (c ∷ s) ≡ trim_start s
unfolding trim_start
start-space c s e = rw (e, trim_start) refl

end-solid : (c : Char) (s : String) → is_space (code c) ≡ false → trim_end (c ∷ s) ≡ c ∷ trim_end s
unfolding trim_end
end-solid c s e = rw (e, trim_end) refl

ends-twice :
    (s : String) → trim_end (trim_start (trim_end (trim_start s))) ≡ trim_end (trim_start s)
unfolding trim_start trim_end
ends-twice [] = refl
ends-twice (c ∷ s) = elim (Bool-cases (is_space (code c))) [
  | inl e ↦ rw (start-space c s e) (ends-twice s)
  | inr e ↦
      ap (λ t. trim_end (trim_start (trim_end t))) (start-solid c s e)
      ∙ ap (λ t. trim_end (trim_start t)) (end-solid c s e)
      ∙ ap trim_end (start-solid c (trim_end s) e)
      ∙ end-solid c (trim_end s) e
      ∙ ap (λ t. c ∷ t) (trim_end-twice s)
      ∙ sym (end-solid c s e)
      ∙ ap trim_end (sym (start-solid c s e))
]

pub trim-twice : (s : String) → trim (trim s) ≡ trim s
unfolding trim
trim-twice s = ends-twice s

pub cons-nonempty : (c : Char) (a b : String) → (((c ∷ a) <> b) == "") ≡ false
cons-nonempty c a b = ap (λ t. t == "") (cons-append c a b) ∙ ap is_eq (λ i. cons-nil c (a <> b) i)

append-nonempty : (a b : String) → (b == "") ≡ false → ((a <> b) == "") ≡ false
append-nonempty [] b h = ap (λ t. t == "") (nil-append b) ∙ h
append-nonempty (c ∷ a) b h = cons-nonempty c a b

-- A text ends without white space where its last part does.
pub end-append : (a b : String) → (b == "") ≡ false → trim_end b ≡ b → trim_end (a <> b) ≡ a <> b
unfolding trim_end
end-append [] b h e = ap trim_end (nil-append b) ∙ e ∙ sym (nil-append b)
end-append (c ∷ a) b h e =
    ap trim_end (cons-append c a b)
    ∙ kept (end-append a b h e) (is_space (code c))
    ∙ sym (cons-append c a b)
  where
    at_space : (s : Bool) → (if s && false then [] else c ∷ (a <> b)) ≡ c ∷ (a <> b)
    at_space true = refl
    at_space false = refl

    kept :
        trim_end (a <> b) ≡ a <> b
        → (s : Bool)
        → (if s && trim_end (a <> b) == "" then [] else c ∷ trim_end (a <> b)) ≡ c ∷ (a <> b)
    kept rest s = rw (rest, append-nonempty a b h) (at_space s)

Ends : String → Type 0
Ends s = (trim_end s ≡ s) × ((s == "") ≡ false)

if-Ends : (b : Bool) (s t : String) → Ends s → Ends t → Ends (if b then s else t)
if-Ends true s t h k = h
if-Ends false s t h k = k

end-digit : (d : ℕ) → Ends (digit d)
unfolding trim_end digit is_space Ends
end-digit d =
    if-Ends (eqb d 0) _ _ (refl, refl)
      (if-Ends (eqb d 1) _ _ (refl, refl)
        (if-Ends (eqb d 2) _ _ (refl, refl)
          (if-Ends (eqb d 3) _ _ (refl, refl)
            (if-Ends (eqb d 4) _ _ (refl, refl)
              (if-Ends (eqb d 5) _ _ (refl, refl)
                (if-Ends (eqb d 6) _ _ (refl, refl)
                  (if-Ends (eqb d 7) _ _ (refl, refl)
                    (if-Ends (eqb d 8) "8" "9" (refl, refl) (refl, refl)))))))))

end-decimal_from : (fuel n : ℕ) → Ends (decimal_from (suc fuel) n)
unfolding decimal_from Ends
end-decimal_from fuel n = elim (Bool-cases (ltb n 10)) [
  | inl e ↦ rw (e, decimal_from) (end-digit n)
  | inr e ↦
      let d = end-digit (n % 10) in
      rw (e, decimal_from)
        (
          end-append (decimal_from fuel (n / 10)) (digit (n % 10)) d.1 d.0,
          append-nonempty (decimal_from fuel (n / 10)) (digit (n % 10)) d.1,
        )
]

-- A text that starts and ends without white space is trimmed.
pub trim-numbered :
    (c : Char) (a : String) (n : ℕ)
    → is_space (code c) ≡ false
    → trim ((c ∷ a) <> decimal n) ≡ (c ∷ a) <> decimal n
unfolding trim decimal Ends
trim-numbered c a n e =
    let d = end-decimal_from n n in
    let whole = end-append (c ∷ a) (decimal_from (suc n) n) d.1 d.0 in
    ap trim_end (
      ap trim_start (cons-append c a _)
      ∙ start-solid c (a <> decimal_from (suc n) n) e
      ∙ sym (cons-append c a _))
    ∙ whole

pub trim-empty : trim "" ≡ ""
unfolding trim trim_start trim_end
trim-empty = refl
