-- ===== src/PodsPage/Tooltips.antt =====
-- The tooltips of the pods' states: `podStatusTooltipByKey` of frontend/src/pages/PodsPage.tsx.
use text.Mathlib.Text.{starts_with}
use pertisk_kube_app.Base.{
  ℕ, String, Bool, not, ◌&&◌, ◌||◌, Option, none, some, List, [], ◌∷◌, leb, if◌then◌else◌, ◌==◌,
}
use pertisk_kube_app.Base.Text.{◌<>◌, trim, to_lower, split, nonempty, trimmed}

-- The fields of an event that are read; one that is not a text counts as missing.
pub record EventRow : Type 0 where
  pub involved_object : Option String
  pub kind : Option String
  pub name : Option String
  pub namespace : Option String
  pub message : Option String
  pub note : Option String
  pub reason : Option String
  pub event_type : Option String
  pub event_type_ : Option String
  pub last_timestamp : Option String
  pub first_timestamp : Option String

pub record Tooltip : Type 0 where
  pub text : String
  pub event_type : String
  pub ts : ℕ

-- x || y
abbrev pub either_text : Option String → String → String
either_text none y = y
either_text (some x) y = if x == "" then y else x

abbrev pub first_part : List String → String
first_part [] = ""
first_part (x ∷ _) = x

abbrev pub part_after : List String → String
part_after (_ ∷ x ∷ _) = x
part_after _ = ""

-- The object that an event is about, "" where it names none.
unfoldable pub involved : EventRow → String
unfolding to_lower split
involved e =
    let of_name : String =
      if to_lower (either_text e.kind "") == "pod" && nonempty (either_text e.name "")
      then "Pod/" <> first_part (split 0x2E (either_text e.name ""))
      else "" in
    either_text e.involved_object of_name

-- The name of the pod that an event is about, "" where it is about none.
unfoldable pub pod_name : EventRow → String
unfolding involved
pod_name e =
    if starts_with (to_lower (involved e)) "pod/" then part_after (split 0x2F (involved e)) else ""

abbrev pub event_key : EventRow → String
event_key e = either_text e.namespace "default" <> "/" <> pod_name e

abbrev pub timestamp_of : EventRow → String
timestamp_of e = either_text e.last_timestamp (either_text e.first_timestamp "")

unfoldable pub event_text : (reason message : String) → String
unfolding to_lower
event_text reason message =
    if to_lower reason == "failedscheduling"
    then (if message == "" then reason else message)
    else if nonempty reason && nonempty message
    then reason <> ": " <> message
    else if message == ""
    then reason
    else message

-- `parse_date` is Date.parse, none for NaN, and `time_ago` the age of a timestamp by the clock.
module _ (parse_date : String → Option ℕ) (time_ago : String → String) where
  abbrev pub instant : String → ℕ
  instant s = elim (parse_date s) [ none ↦ 0 | some n ↦ n ]

  unfoldable pub tooltip : EventRow → Tooltip
  unfolding event_text trim
  tooltip e =
      let message = trim (either_text e.message (either_text e.note "")) in
      let text = event_text (trimmed e.reason) message in
      let age = time_ago (timestamp_of e) in
      record {
        text = if age == "" then text else text <> " (" <> age <> ")";
        event_type = to_lower (either_text e.event_type (either_text e.event_type_ ""));
        ts = instant (timestamp_of e);
      }

  -- An event that the loop does not pass over: with its key and its tooltip.
  unfoldable pub candidate : EventRow → Option (String × Tooltip)
  unfolding pod_name tooltip trim
  candidate e =
      if pod_name e == ""
      then none
      else if trim (either_text e.message (either_text e.note "")) == "" && trimmed e.reason == ""
      then none
      else some (event_key e, tooltip e)

abbrev pub is_warning : Tooltip → Bool
is_warning t = t.event_type == "warning"

-- shouldReplace, where there is a tooltip
abbrev pub should_replace : (existing found : Tooltip) → Bool
should_replace existing found =
    (is_warning found && not (is_warning existing))
    || (found.event_type == existing.event_type && leb existing.ts found.ts)

-- A Map as the list of its entries.
abbrev pub Tooltips : Type 0
Tooltips = List (String × Tooltip)

-- selectedByPod.get(key)
unfoldable pub tooltip_of : String → Tooltips → Option Tooltip
tooltip_of key [] = none
tooltip_of key ((k, t) ∷ m) = if k == key then some t else tooltip_of key m

-- selectedByPod.set(key, tooltip)
unfoldable pub set_tooltip : String → Tooltip → Tooltips → Tooltips
set_tooltip key t [] = (key, t) ∷ []
set_tooltip key t ((k, u) ∷ m) =
    let rest = set_tooltip key t m in if k == key then (k, t) ∷ m else (k, u) ∷ rest

-- What the loop does with an event that it does not pass over.
unfoldable pub choose : String → Tooltip → Tooltips → Tooltips
unfolding tooltip_of set_tooltip
choose key found m = elim (tooltip_of key m) [
  | none ↦ set_tooltip key found m
  | some existing ↦ if should_replace existing found then set_tooltip key found m else m
]

module _ (parse_date : String → Option ℕ) (time_ago : String → String) where
  unfoldable pub tooltips : List EventRow → Tooltips → Tooltips
  unfolding candidate choose
  tooltips [] m = m
  tooltips (e ∷ es) m = elim (candidate parse_date time_ago e) [
    | none ↦ tooltips es m
    | some (key, found) ↦ tooltips es (choose key found m)
  ]

  -- podStatusTooltipByKey.get(key)
  unfoldable pub tooltip_text : String → List EventRow → Option String
  unfolding tooltips
  tooltip_text key es = elim (tooltip_of key (tooltips es [])) [
    | none ↦ none
    | some t ↦ some t.text
  ]
