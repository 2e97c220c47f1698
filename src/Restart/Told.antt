-- ===== src/Restart/Told.antt =====
-- What a refused restart of all workloads tells of the reason.
use pertisk_kube_app.Base.{
  ℕ, String, ◌≡◌, refl, ap, false, Option, List, if◌then◌else◌, eqb, Bool-cases, inl, inr,
}
use pertisk_kube_app.Base.Json.{Json, decimal}
use pertisk_kube_app.Base.Text.{◌<>◌, trimmed, nonempty}
use pertisk_kube_app.Restart.Requests.{
  Outcome, returned, thrown, HttpResponse, Request, post_restart_all, is_ok, message_of,
  failure_message,
}
use pertisk_kube_app.Restart.All.{conclude, restart_all}

-- The error with a status, its text and a message of the backend.
abbrev pub refusal : ℕ → String → Option String → String
refusal status status_text message =
    let label = decimal status <> (if nonempty status_text then " " <> status_text else "") in
    if nonempty (trimmed message)
    then "Failed to restart workloads (" <> label <> "): " <> trimmed message
    else "Failed to restart workloads (" <> label <> ")"

failure_message-refusal :
    (r : HttpResponse) → failure_message r ≡ refusal r.status r.status_text (message_of r.message)
unfolding failure_message
failure_message-refusal r = elim (Bool-cases (nonempty (trimmed (message_of r.message)))) [
  | inl e ↦ rw e refl
  | inr e ↦ rw e refl
]

-- Where the first request is answered with a status that is no success, and neither 404 nor 405, the
-- restart throws an error with the status, and with the message of the answer's JSON where that has one
-- that is not blank: of any other text of the answer the error says nothing.
pub restart_all-refusal :
    {S : Type 0} (fetch : Request → S → Outcome HttpResponse × S) (parse : String → Outcome Json)
    (stringify : Json → String) (type_error at : String) (namespaces : List String) (s s' : S)
    (r : HttpResponse)
    → fetch (post_restart_all namespaces) s ≡ (returned r, s')
    → is_ok r ≡ false
    → eqb r.status 404 ≡ false
    → eqb r.status 405 ≡ false
    → restart_all fetch parse stringify type_error at namespaces s
      ≡ (thrown (refusal r.status r.status_text (message_of r.message)), s')
unfolding restart_all conclude
restart_all-refusal fetch parse stringify type_error at namespaces s s' r answer failed not_404
      not_405 =
    rw answer
      (rw not_405 (rw failed (rw not_404 (ap (λ m. (thrown m, s')) (failure_message-refusal r)))))
