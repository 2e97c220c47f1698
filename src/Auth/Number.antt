-- ===== src/Auth/Number.antt =====
-- `parseInt` of a text, and that it reads what `toString` writes of a natural number.
use Prim.Native.Nat.{ℕ, zero, suc, ◌+◌, ◌-◌, ◌*◌, ◌/◌, ◌%◌, ◌<◌}
use Prim.Native.Char.{Char, code}
use Prim.Native.String
use Prim.Native.String.{String, [], ◌∷◌}
use text.Mathlib.TextLemmas.{nil-append, cons-append}
use pertisk_kube_app.Base.{
  subst, ◌≡◌, refl, sym, ap, ◌∙◌, inl, inr, Bool, true, false, ◌&&◌, arith, ltb, leb, eqb,
  ≢→==-false, ◌==◌, if◌then◌else◌, Bool-cases,
}
use pertisk_kube_app.Base.Json.{digit, decimal_from, decimal}
use pertisk_kube_app.Base.Text.{is_space}

pub data Parsed : Type 0 where
  nan : Parsed
  negative natural : ℕ → Parsed

abbrev pub is_digit : Char → Bool
is_digit c = leb 48 (code c) && leb (code c) 57

-- The number that the leading digits make, after the digits of `acc`.
unfoldable pub digits : ℕ → String → ℕ
digits acc [] = acc
digits acc (c ∷ s) =
    let rest = digits (10 * acc + (code c - 48)) s in if is_digit c then rest else acc

abbrev pub from_digits : (ℕ → Parsed) → String → Parsed
from_digits sign [] = nan
from_digits sign (c ∷ s) = if is_digit c then sign (digits 0 (c ∷ s)) else nan

unfoldable pub parse_int : String → Parsed
unfolding digits is_space
parse_int [] = nan
parse_int (c ∷ s) =
    let rest = parse_int s in
    if is_space (code c)
    then rest
    else if eqb (code c) 45
    then from_digits negative s
    else if eqb (code c) 43
    then from_digits natural s
    else from_digits natural (c ∷ s)

abbrev IsDigits : String → Type 0
IsDigits [] = Unit
IsDigits (c ∷ s) = (is_digit c ≡ true) × IsDigits s

digits-append :
    (acc : ℕ) (s t : String) → IsDigits s → digits acc (String.◌++◌ s t) ≡ digits (digits acc s) t
unfolding digits
digits-append acc [] t h = ap (digits acc) (nil-append t)
digits-append acc (c ∷ s) t (h, hs) =
    ap (digits acc) (cons-append c s t)
    ∙ rw (h, digits) (digits-append (10 * acc + (code c - 48)) s t hs)

digits-digit : (acc d : ℕ) → d < 10 → digits acc (digit d) ≡ 10 * acc + d
unfolding digits digit
digits-digit acc zero h = omega arith
digits-digit acc (suc zero) h = omega arith
digits-digit acc (suc (suc zero)) h = omega arith
digits-digit acc (suc (suc (suc zero))) h = omega arith
digits-digit acc (suc (suc (suc (suc zero)))) h = omega arith
digits-digit acc (suc (suc (suc (suc (suc zero))))) h = omega arith
digits-digit acc (suc (suc (suc (suc (suc (suc zero)))))) h = omega arith
digits-digit acc (suc (suc (suc (suc (suc (suc (suc zero))))))) h = omega arith
digits-digit acc (suc (suc (suc (suc (suc (suc (suc (suc zero)))))))) h = omega arith
digits-digit acc (suc (suc (suc (suc (suc (suc (suc (suc (suc zero))))))))) h = omega arith
digits-digit acc (suc (suc (suc (suc (suc (suc (suc (suc (suc (suc d)))))))))) h = omega (arith, h)

IsDigits-append : (s t : String) → IsDigits s → IsDigits t → IsDigits (String.◌++◌ s t)
IsDigits-append [] t h k = subst IsDigits (sym (nil-append t)) k
IsDigits-append (c ∷ s) t (h, hs) k =
    subst IsDigits (sym (cons-append c s t)) (h, IsDigits-append s t hs k)

-- A text with a digit in front.
abbrev StartsWithDigit : String → Type 0
StartsWithDigit [] = ⊥
StartsWithDigit (c ∷ s) = is_digit c ≡ true

starts-append : (s t : String) → StartsWithDigit s → StartsWithDigit (String.◌++◌ s t)
starts-append [] t h = absurd h
starts-append (c ∷ s) t h = subst StartsWithDigit (sym (cons-append c s t)) h

digit-IsDigits : (d : ℕ) → d < 10 → IsDigits (digit d) × StartsWithDigit (digit d)
unfolding digit
digit-IsDigits zero h = ((refl, tt), refl)
digit-IsDigits (suc zero) h = ((refl, tt), refl)
digit-IsDigits (suc (suc zero)) h = ((refl, tt), refl)
digit-IsDigits (suc (suc (suc zero))) h = ((refl, tt), refl)
digit-IsDigits (suc (suc (suc (suc zero)))) h = ((refl, tt), refl)
digit-IsDigits (suc (suc (suc (suc (suc zero))))) h = ((refl, tt), refl)
digit-IsDigits (suc (suc (suc (suc (suc (suc zero)))))) h = ((refl, tt), refl)
digit-IsDigits (suc (suc (suc (suc (suc (suc (suc zero))))))) h = ((refl, tt), refl)
digit-IsDigits (suc (suc (suc (suc (suc (suc (suc (suc zero)))))))) h = ((refl, tt), refl)
digit-IsDigits (suc (suc (suc (suc (suc (suc (suc (suc (suc zero))))))))) h = ((refl, tt), refl)
digit-IsDigits (suc (suc (suc (suc (suc (suc (suc (suc (suc (suc d)))))))))) h =
    absurd (omega (arith, h))

decimal_from-IsDigits :
    (fuel n : ℕ)
    → n < fuel
    → IsDigits (decimal_from fuel n)
      × StartsWithDigit (decimal_from fuel n)
      × (digits 0 (decimal_from fuel n) ≡ n)
unfolding decimal_from
decimal_from-IsDigits zero n h = omega (arith, h)
decimal_from-IsDigits (suc fuel) n h = elim (Bool-cases (ltb n 10)) [
  | inl e ↦
      rw (e, decimal_from)
        (
          (digit-IsDigits n (ground arith)).0,
          (digit-IsDigits n (ground arith)).1,
          digits-digit 0 n (ground arith) ∙ omega arith,
        )
  | inr e ↦
      let small : n / 10 < fuel = ground arith in
      let last : n % 10 < 10 = omega arith in
      let (all, first, value) = decimal_from-IsDigits fuel (n / 10) small in
      rw (e, decimal_from)
        (
          IsDigits-append (decimal_from fuel (n / 10)) (digit (n % 10)) all
              (digit-IsDigits (n % 10) last).0,
          starts-append (decimal_from fuel (n / 10)) (digit (n % 10)) first,
          digits-append 0 (decimal_from fuel (n / 10)) (digit (n % 10)) all
              ∙ digits-digit (digits 0 (decimal_from fuel (n / 10))) (n % 10) last
              ∙ omega (arith, value),
        )
]

apart_from_digits :
    (k : ℕ)
    → (leb 48 k && leb k 57) ≡ true
    → (is_space k ≡ false) × (eqb k 45 ≡ false) × (eqb k 43 ≡ false)
unfolding is_space
apart_from_digits k h = (ground arith, ground arith, ground arith)

parse_int-digits : (s : String) → StartsWithDigit s → parse_int s ≡ natural (digits 0 s)
unfolding parse_int
parse_int-digits [] h = absurd h
parse_int-digits (c ∷ s) h =
    let (space, minus, plus) = apart_from_digits (code c) h in rw (space, minus, plus, h, parse_int)

pub parse_int-decimal : (n : ℕ) → parse_int (decimal n) ≡ natural n
unfolding decimal
parse_int-decimal n =
    let (all, first, value) = decimal_from-IsDigits (suc n) n (omega arith) in
    parse_int-digits (decimal_from (suc n) n) first ∙ ap natural value

decimal-ne-blank : (s : String) → StartsWithDigit s → (s == "") ≡ false
decimal-ne-blank [] h = absurd h
decimal-ne-blank (c ∷ s) h = ≢→==-false (c ∷ s) "" (λ e. cc)

pub decimal_blank : (n : ℕ) → (decimal n == "") ≡ false
unfolding decimal
decimal_blank n =
    let (all, first, value) = decimal_from-IsDigits (suc n) n (omega arith) in
    decimal-ne-blank (decimal_from (suc n) n) first
