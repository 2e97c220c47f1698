-- ===== src/Pods/Status/Errors.antt =====
-- The error message beside a pod's status: which source wins, and that it is never blank.
use text.Mathlib.TextLemmas.{append-eq-nil_iff}
use pertisk_kube_app.Base.{
  String, ◌≡◌, ◌≢◌, true, inl, inr, Option, none, some, List, arith, eq_iff, ◌==◌, if◌then◌else◌,
  Option-cases,
}
use pertisk_kube_app.Base.Text.{trimmed, ◌<>◌, trim}
use pertisk_kube_app.Base.Lists.{find}
use pertisk_kube_app.Pods.Raw.{PodStatus, Condition, has_text}
use pertisk_kube_app.Pods.Status.{
  Verdict, set_last_error, fallback_error, error_from_conditions, is_failing_condition,
}

-- The text that a reason and a message make.
abbrev pub describe : String → Option String → String
describe reason message =
    if trimmed message == "" then trim reason else trim reason <> ": " <> trimmed message

pub set_last_error-describe :
    (reason : String) (message : Option String)
    → trim reason ≢ ""
    → set_last_error none (some reason) message ≡ some (describe reason message)
unfolding set_last_error
set_last_error-describe reason message h =
    ground (arith, eq_iff (trim reason) "", eq_iff (trimmed message) "")

pub status-fallback_error : (s : PodStatus) (v : Verdict) → (fallback_error s v).status ≡ v.status
unfolding fallback_error
status-fallback_error s v = ground arith

pub fallback_error_keeps :
    (s : PodStatus) (v : Verdict) → has_text v.last_error ≡ true → fallback_error s v ≡ v
unfolding fallback_error
fallback_error_keeps s v h = ground arith

abbrev pub IsTold : Option String → Type 0
IsTold o = o ≢ some ""

colon-ne-blank : (a b : String) → (a <> ": " <> b) ≢ ""
colon-ne-blank a b e =
    let front = (append-eq-nil_iff.0 e).0 in
    let colon = (append-eq-nil_iff.0 front).1 in let lie = (eq_iff ": " "").1 colon in cc

pub set_last_error-IsTold :
    (current reason message : Option String)
    → IsTold current
    → IsTold (set_last_error current reason message)
unfolding set_last_error
set_last_error-IsTold current reason message h = ground (
  arith,
  eq_iff (trimmed reason) "",
  eq_iff (trimmed message) "",
  colon-ne-blank (trimmed reason) (trimmed message),
)

pub describe-ne-blank :
    (reason : String) (message : Option String)
    → trim reason ≢ ""
    → has_text (some (describe reason message)) ≡ true
describe-ne-blank reason message h = ground (
  arith,
  eq_iff (trim reason) "",
  eq_iff (describe reason message) "",
  colon-ne-blank (trim reason) (trimmed message),
)

pub error_from_conditions-IsTold :
    (cs : List Condition) (current : Option String)
    → IsTold current
    → IsTold (error_from_conditions cs current)
unfolding error_from_conditions
error_from_conditions-IsTold cs current h = elim (Option-cases (find is_failing_condition cs)) [
  | inl e ↦ rw (e, error_from_conditions) h
  | inr (c, e) ↦ rw (e, error_from_conditions) (set_last_error-IsTold current c.reason c.message h)
]
