-- ===== src/PodsPage/Late.antt =====
-- What the page does while a deletion runs, and at its end.
use pertisk_kube_app.Base.{
  ◌≡◌, refl, ap, ◌∙◌, Bool, true, false, inl, inr, none, List, [], ◌∷◌, ◌++◌, Bool-cases,
  Option-cases,
}
use pertisk_kube_app.Base.Lists.{All}
use pertisk_kube_app.PodsPage.Rows.{Collation, no_texts}
use pertisk_kube_app.PodsPage.Page.{
  PodsPage, delete_selected, delete_single, start_delete, end_delete, Event, listed,
  namespaces_chosen, name_typed, header_clicked, all_clicked, clear_clicked, box_clicked,
  row_clicked, panel_closed, panel_delete_clicked, delete_clicked, cancel_clicked, backdrop_clicked,
  confirm_clicked, deletion_ended, step, run,
}
use pertisk_kube_app.PodsPage.Dialog.{is_quiet, step-SameDialog, run-append}

-- Every event but the end of a deletion.
abbrev pub is_other : Event → Bool
is_other (deletion_ended good) = false
is_other _ = true

quiet_step :
    (c : Collation) (e : Event) (p : PodsPage)
    → is_quiet e ≡ true
    → p.deleting ≡ true
    → ((step c e p).deleting ≡ true) × ((step c e p).sent ≡ p.sent)
quiet_step c e p q d = let kept = step-SameDialog c e p q in (kept.deleting ∙ d, kept.sent)

single_step :
    (p : PodsPage)
    → p.deleting ≡ true
    → ((delete_single p).deleting ≡ true) × ((delete_single p).sent ≡ p.sent)
unfolding delete_single
single_step p d = elim (Option-cases p.selected_pod) [
  | inl e ↦ rw (e, delete_single) (d, refl)
  | inr (pod, e) ↦ elim (Bool-cases p.panel_open) [
    | inl w ↦ rw (e, delete_single) (rw w (d, refl))
    | inr w ↦ rw (e, delete_single) (rw w (d, refl))
  ]
]

step-deleting :
    (c : Collation) (e : Event) (p : PodsPage)
    → is_other e ≡ true
    → p.deleting ≡ true
    → ((step c e p).deleting ≡ true) × ((step c e p).sent ≡ p.sent)
unfolding step delete_selected start_delete
step-deleting c panel_delete_clicked p o d = single_step p d
step-deleting c delete_clicked p o d = elim (Bool-cases (no_texts p.selected_rows)) [
  | inl e ↦ rw (e, delete_selected) (d, refl)
  | inr e ↦ rw (e, delete_selected) (d, refl)
]
step-deleting c cancel_clicked p o d = rw d (refl, refl)
step-deleting c backdrop_clicked p o d = (d, refl)
step-deleting c confirm_clicked p o d = elim (Option-cases p.confirm) [
  | inl e ↦ rw (e, start_delete) (d, refl)
  | inr (a, e) ↦ rw (e, start_delete) (rw (d, start_delete) (refl, refl))
]
step-deleting c (deletion_ended good) p o d = cc
step-deleting c (listed rows) p o d = quiet_step c (listed rows) p refl d
step-deleting c (namespaces_chosen ns) p o d = quiet_step c (namespaces_chosen ns) p refl d
step-deleting c (name_typed text) p o d = quiet_step c (name_typed text) p refl d
step-deleting c (header_clicked key) p o d = quiet_step c (header_clicked key) p refl d
step-deleting c all_clicked p o d = quiet_step c all_clicked p refl d
step-deleting c clear_clicked p o d = quiet_step c clear_clicked p refl d
step-deleting c (box_clicked key) p o d = quiet_step c (box_clicked key) p refl d
step-deleting c (row_clicked key) p o d = quiet_step c (row_clicked key) p refl d
step-deleting c panel_closed p o d = quiet_step c panel_closed p refl d

run-deleting :
    (c : Collation) (es : List Event) (p : PodsPage)
    → All (λ e. is_other e ≡ true) es
    → p.deleting ≡ true
    → ((run c es p).deleting ≡ true) × ((run c es p).sent ≡ p.sent)
unfolding run
run-deleting c [] p o d = (d, refl)
run-deleting c (e ∷ es) p (o, os) d =
    let at_step = step-deleting c e p o d in
    let later = run-deleting c es (step c e p) os at_step.0 in (later.0, later.1 ∙ at_step.1)

cleared :
    (c : Collation) (p : PodsPage)
    → p.deleting ≡ true
    → ((run c (deletion_ended true ∷ []) p).sent ≡ p.sent)
      × ((run c (deletion_ended true ∷ []) p).selected_rows ≡ [])
      × ((run c (deletion_ended true ∷ []) p).confirm ≡ none)
unfolding run step end_delete
cleared c p d = rw (d, end_delete) (refl, refl, refl)

-- While a deletion runs, no click sends another, and the success of the deletion, whenever it comes, leaves no row selected
-- and no dialog open: also rows that were selected, and a dialog that was opened, after the deletion's own
-- dialog was closed.
pub late_success :
    (c : Collation) (es : List Event) (p : PodsPage)
    → All (λ e. is_other e ≡ true) es
    → p.deleting ≡ true
    → ((run c (es ++ (deletion_ended true ∷ [])) p).sent ≡ p.sent)
      × ((run c (es ++ (deletion_ended true ∷ [])) p).selected_rows ≡ [])
      × ((run c (es ++ (deletion_ended true ∷ [])) p).confirm ≡ none)
late_success c es p o d =
    let kept = run-deleting c es p o d in
    let apart = run-append c es (deletion_ended true ∷ []) p in
    let ended = cleared c (run c es p) kept.0 in
    (
      ap (λ q. q.sent) apart ∙ ended.0 ∙ kept.1,
      ap (λ q. q.selected_rows) apart ∙ ended.1,
      ap (λ q. q.confirm) apart ∙ ended.2,
    )
