-- ===== src/Base/Json.antt =====
-- JavaScript's values as the hooks receive them from JSON: truthiness, `||`, `??`, and the text
-- that a template literal makes of a value. Numbers are natural numbers.
use Prim.Native.Nat.{ℕ, zero, suc, ◌/◌, ◌%◌}
use Prim.Native.String
use Prim.Native.String.{String}
use mathlib.Core.Bool.{Bool, true, false, not}
use mathlib.Core.Option.{Option, none, some}
use text.Mathlib.Text.{◌==◌}
unfoldable use native.Mathlib.Decide.{ℕ_discrete}
use pertisk_kube_app.Base.Tests.{ltb, eqb, if◌then◌else◌, String-discrete}

mutual
  pub data Json : Type 0 where
    undefined null : Json
    bool : Bool → Json
    num : ℕ → Json
    str : String → Json
    arr : Items → Json
    obj : Fields → Json

  pub data Items : Type 0 where
    nil : Items
    cons : Json → Items → Items

  pub data Fields : Type 0 where
    end : Fields
    field : String → Json → Fields → Fields

pub Json-discrete : Discrete Json
Json-discrete = hlevel (ℕ_discrete, String-discrete)

-- Boolean(v)
abbrev pub truthy : Json → Bool
truthy undefined = false
truthy null = false
truthy (bool b) = b
truthy (num n) = not (eqb n 0)
truthy (str s) = not (s == "")
truthy (arr xs) = true
truthy (obj fs) = true

-- a || b
abbrev pub or_else : Json → Json → Json
or_else a b = if truthy a then a else b

-- a ?? b
abbrev pub nullish : Json → Json → Json
nullish undefined b = b
nullish null b = b
nullish a b = a

-- typeof v === 'string' ? v : undefined
abbrev pub as_text : Json → Option String
as_text (str s) = some s
as_text _ = none

-- v === s, for a text s
abbrev pub is_str : String → Json → Bool
is_str s (str t) = t == s
is_str s _ = false

unfoldable pub digit : ℕ → String
digit d =
    if eqb d 0
    then "0"
    else if eqb d 1
    then "1"
    else if eqb d 2
    then "2"
    else if eqb d 3
    then "3"
    else if eqb d 4
    then "4"
    else if eqb d 5
    then "5"
    else if eqb d 6
    then "6"
    else if eqb d 7
    then "7"
    else if eqb d 8
    then "8"
    else "9"

unfoldable pub decimal_from : ℕ → ℕ → String
decimal_from zero n = ""
decimal_from (suc fuel) n =
    let more = String.◌++◌ (decimal_from fuel (n / 10)) (digit (n % 10)) in
    if ltb n 10 then digit n else more

-- String(n): a number has at most as many digits as its successor.
unfoldable pub decimal : ℕ → String
unfolding decimal_from digit
decimal n = decimal_from (suc n) n

-- Array.prototype.join writes nothing for `undefined` and `null`.
abbrev joined : Json → String → String
joined undefined text = ""
joined null text = ""
joined _ text = text

-- String(v): a text or a number as it reads, an array as its joined items.
unfoldable mutual
  pub to_text : Json → String
  to_text undefined = "undefined"
  to_text null = "null"
  to_text (bool b) = if b then "true" else "false"
  to_text (num n) = decimal n
  to_text (str s) = s
  to_text (arr xs) = join_items xs
  to_text (obj fs) = "[object Object]"

  pub join_items : Items → String
  join_items nil = ""
  join_items (cons x xs) =
      let rest = join_items xs in
      elim xs [
        | nil ↦ joined x (to_text x)
        | cons _ _ ↦ String.◌++◌ (joined x (to_text x)) (String.◌++◌ "," rest)
      ]
