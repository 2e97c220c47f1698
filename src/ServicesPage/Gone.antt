-- ===== src/ServicesPage/Gone.antt =====
-- What becomes of selected services that the list no longer has.
use pertisk_kube_app.Base.{
  ◌≡◌, refl, ap, ap₂, ◌∙◌, Bool, true, false, some, List, [], ◌∷◌, ◌++◌, map,
}
use pertisk_kube_app.Base.Lists.{All}
use pertisk_kube_app.PodsPage.Table.{next_sort}
use pertisk_kube_app.PodsPage.Rows.{Collation, no_texts}
use pertisk_kube_app.PodsPage.Page.{request_of}
use pertisk_kube_app.ServicesPage.{
  ServicesPage, services_label, delete_services, start_requests, end_requests, Event, listed,
  namespaces_chosen, name_typed, header_clicked, all_clicked, clear_clicked, box_clicked,
  row_clicked, panel_closed, panel_delete_clicked, delete_clicked, cancel_clicked, backdrop_clicked,
  confirm_clicked, deletion_ended, step, run,
}

-- Lists that arrive, and changes of the view.
abbrev pub is_outside : Event → Bool
is_outside (listed services) = true
is_outside (namespaces_chosen namespaces) = true
is_outside (name_typed text) = true
is_outside (header_clicked key) = true
is_outside panel_closed = true
is_outside _ = false

run_outside :
    (c : Collation) (es : List Event) (p : ServicesPage)
    → All (λ e. is_outside e ≡ true) es
    → ((run c es p).selected_rows ≡ p.selected_rows)
      × ((run c es p).deleting ≡ p.deleting)
      × ((run c es p).sent ≡ p.sent)
unfolding run step
run_outside c [] p v = (refl, refl, refl)
run_outside c (listed services ∷ es) p (v, vs) =
    run_outside c es (record p { services = services }) vs
run_outside c (namespaces_chosen ns ∷ es) p (v, vs) =
    run_outside c es (record p { namespaces = ns }) vs
run_outside c (name_typed text ∷ es) p (v, vs) =
    run_outside c es (record p { name_filter = text }) vs
run_outside c (header_clicked key ∷ es) p (v, vs) =
    run_outside c es (record p { sort_state = next_sort key p.sort_state }) vs
run_outside c (panel_closed ∷ es) p (v, vs) = run_outside c es (record p { panel_open = false }) vs
run_outside c (all_clicked ∷ es) p (v, vs) = cc
run_outside c (clear_clicked ∷ es) p (v, vs) = cc
run_outside c (box_clicked key ∷ es) p (v, vs) = cc
run_outside c (row_clicked key ∷ es) p (v, vs) = cc
run_outside c (panel_delete_clicked ∷ es) p (v, vs) = cc
run_outside c (delete_clicked ∷ es) p (v, vs) = cc
run_outside c (cancel_clicked ∷ es) p (v, vs) = cc
run_outside c (backdrop_clicked ∷ es) p (v, vs) = cc
run_outside c (confirm_clicked ∷ es) p (v, vs) = cc
run_outside c (deletion_ended good ∷ es) p (v, vs) = cc

run-append :
    (c : Collation) (es fs : List Event) (p : ServicesPage)
    → run c (es ++ fs) p ≡ run c fs (run c es p)
unfolding run
run-append c [] fs p = refl
run-append c (e ∷ es) fs p = run-append c es fs (step c e p)

-- Delete, its confirmation and a request that fails.
abbrev pub failed_attempt : List Event
failed_attempt = delete_clicked ∷ confirm_clicked ∷ deletion_ended false ∷ []

attempted : ServicesPage → ServicesPage
attempted p = record p {
  confirm = some (record { keys = p.selected_rows; label = services_label p.selected_rows });
  deleting = false;
  sent = p.sent ++ map request_of p.selected_rows;
}

run-failed_attempt :
    (c : Collation) (p : ServicesPage)
    → no_texts p.selected_rows ≡ false
    → p.deleting ≡ false
    → run c failed_attempt p ≡ attempted p
unfolding run step delete_services start_requests end_requests attempted
run-failed_attempt c p some_rows idle = rw some_rows (rw idle refl)

-- However the list of services changes after rows were selected, also where it no longer has the selected
-- services, Delete and its confirmation request the deletion of every selected row. Where one of the requests
-- fails, the rows are selected as before and the dialog asks for the same again.
pub failure_keeps_gone :
    (c : Collation) (es : List Event) (p : ServicesPage)
    → All (λ e. is_outside e ≡ true) es
    → no_texts p.selected_rows ≡ false
    → p.deleting ≡ false
    → ((run c (es ++ failed_attempt) p).sent ≡ p.sent ++ map request_of p.selected_rows)
      × ((run c (es ++ failed_attempt) p).selected_rows ≡ p.selected_rows)
      × ((run c (es ++ failed_attempt) p).confirm
          ≡ some (record { keys = p.selected_rows; label = services_label p.selected_rows }))
unfolding attempted
failure_keeps_gone c es p outside some_rows idle =
    let (rows, still, sent) = run_outside c es p outside in
    let q = run c es p in
    let made : run c (es ++ failed_attempt) p ≡ attempted q =
      run-append c es failed_attempt p
      ∙ run-failed_attempt c q (ap no_texts rows ∙ some_rows) (still ∙ idle) in
    (
      ap (λ s. s.sent) made ∙ ap₂ (λ xs ks. xs ++ map request_of ks) sent rows,
      ap (λ s. s.selected_rows) made ∙ rows,
      ap (λ s. s.confirm) made
          ∙ ap (λ ks. some (record { keys = ks; label = services_label ks })) rows,
    )
