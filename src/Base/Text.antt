-- ===== src/Base/Text.antt =====
-- JavaScript's text operations: `trim`, `toLowerCase`, `includes`, `split` and `join`. Case is
-- folded for the ASCII letters only: the program compares Kubernetes' and its own ASCII words.
use Prim.Native.Nat.{ℕ}
use Prim.Native.Char.{Char, code}
use Prim.Native.String
use Prim.Native.String.{String, [], ◌∷◌}
use mathlib.Core.Bool.{Bool, false, ◌&&◌, ◌||◌, not}
use mathlib.Core.List.{List}
use mathlib.Core.Option.{Option, none, some}
use text.Mathlib.Text.{◌==◌, starts_with}
use pertisk_kube_app.Base.Tests.{leb, eqb, if◌then◌else◌}

infixl 65 ◌<>◌
abbrev pub ◌<>◌ : String → String → String
s <> t = String.◌++◌ s t

-- The white space of the language: its WhiteSpace and LineTerminator productions.
unfoldable pub is_space : ℕ → Bool
is_space c =
    (leb 9 c && leb c 13)
    || eqb c 32
    || eqb c 160
    || eqb c 0x1680
    || (leb 0x2000 c && leb c 0x200A)
    || eqb c 0x2028
    || eqb c 0x2029
    || eqb c 0x202F
    || eqb c 0x205F
    || eqb c 0x3000
    || eqb c 0xFEFF

unfoldable pub trim_start : String → String
trim_start [] = []
trim_start (c ∷ s) = if is_space (code c) then trim_start s else c ∷ s

unfoldable pub trim_end : String → String
trim_end [] = []
trim_end (c ∷ s) = let r = trim_end s in if is_space (code c) && r == "" then [] else c ∷ r

-- s.trim()
unfoldable pub trim : String → String
unfolding trim_start trim_end is_space
trim s = trim_end (trim_start s)

fold_char : String → String → Char → Char
fold_char (u ∷ us) (l ∷ ls) c = if eqb (code c) (code u) then l else fold_char us ls c
fold_char _ _ c = c

-- s.toLowerCase()
unfoldable pub to_lower : String → String
unfolding fold_char
to_lower [] = []
to_lower (c ∷ s) =
    fold_char "ABCDEFGHIJKLMNOPQRSTUVWXYZ" "abcdefghijklmnopqrstuvwxyz" c ∷ to_lower s

-- s.toUpperCase()
unfoldable pub to_upper : String → String
unfolding fold_char
to_upper [] = []
to_upper (c ∷ s) =
    fold_char "abcdefghijklmnopqrstuvwxyz" "ABCDEFGHIJKLMNOPQRSTUVWXYZ" c ∷ to_upper s

-- s.includes(t)
unfoldable pub includes : String → String → Bool
includes [] t = t == ""
includes (c ∷ s) t = starts_with (c ∷ s) t || includes s t

-- xs.join(sep)
unfoldable pub join : String → List String → String
join sep List.[] = ""
join sep (List.◌∷◌ x List.[]) = x
join sep (List.◌∷◌ x xs) = x <> sep <> join sep xs

-- xs.includes(x)
abbrev pub member : String → List String → Bool
member x List.[] = false
member x (List.◌∷◌ y ys) = y == x || member x ys

-- s?.trim(), and "" where s is missing
abbrev pub trimmed : Option String → String
trimmed none = ""
trimmed (some s) = trim s

-- Boolean(s)
abbrev pub nonempty : String → Bool
nonempty s = not (s == "")

-- s.split(sep), for a separator of one character
split_push : Char → List String → List String
split_push c List.[] = List.◌∷◌ (c ∷ []) List.[]
split_push c (List.◌∷◌ part parts) = List.◌∷◌ (c ∷ part) parts

unfoldable pub split : ℕ → String → List String
unfolding split_push
split sep [] = List.◌∷◌ "" List.[]
split sep (c ∷ s) =
    let parts = split sep s in if eqb (code c) sep then List.◌∷◌ "" parts else split_push c parts
