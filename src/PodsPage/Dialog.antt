-- ===== src/PodsPage/Dialog.antt =====
-- What leaves the dialog of the page as it is.
use pertisk_kube_app.Base.{
  ◌≡◌, refl, ◌∙◌, Bool, true, false, inl, inr, Option, none, some, List, [], ◌∷◌, ◌++◌, ◌==◌,
  Bool-cases,
}
use pertisk_kube_app.Base.Lists.{All, find}
use pertisk_kube_app.Base.Text.{member}
use pertisk_kube_app.Pods.Row.{Pod, key_of}
use pertisk_kube_app.PodsPage.Table.{next_sort}
use pertisk_kube_app.PodsPage.Rows.{Collation, sorted_pods}
use pertisk_kube_app.PodsPage.Page.{
  PodsPage, shown_keys, follow, on_data, Event, listed, namespaces_chosen, name_typed,
  header_clicked, all_clicked, clear_clicked, box_clicked, row_clicked, panel_closed,
  panel_delete_clicked, delete_clicked, cancel_clicked, backdrop_clicked, confirm_clicked,
  deletion_ended, step, run,
}

-- Events that neither open, close nor confirm the dialog, nor end a deletion.
abbrev pub is_quiet : Event → Bool
is_quiet panel_delete_clicked = false
is_quiet delete_clicked = false
is_quiet cancel_clicked = false
is_quiet backdrop_clicked = false
is_quiet confirm_clicked = false
is_quiet (deletion_ended good) = false
is_quiet _ = true

-- Changes of the filters and of the order.
abbrev pub is_view : Event → Bool
is_view (namespaces_chosen namespaces) = true
is_view (name_typed text) = true
is_view (header_clicked key) = true
is_view _ = false

-- What the dialog depends on is the same.
pub record SameDialog (p p' : PodsPage) : Type 0 where
  pub confirm : p'.confirm ≡ p.confirm
  pub deleting : p'.deleting ≡ p.deleting
  pub sent : p'.sent ≡ p.sent

same : (p : PodsPage) → SameDialog p p
same p = record { confirm = refl; deleting = refl; sent = refl }

trans : (p q r : PodsPage) → SameDialog p q → SameDialog q r → SameDialog p r
trans p q r h k = record {
  confirm = k.confirm ∙ h.confirm;
  deleting = k.deleting ∙ h.deleting;
  sent = k.sent ∙ h.sent;
}

pub step-SameDialog :
    (c : Collation) (e : Event) (p : PodsPage) → is_quiet e ≡ true → SameDialog p (step c e p)
unfolding step on_data
step-SameDialog c (listed rows) p q = record { confirm = refl; deleting = refl; sent = refl }
step-SameDialog c (namespaces_chosen ns) p q = record {
  confirm = refl;
  deleting = refl;
  sent = refl;
}
step-SameDialog c (name_typed text) p q = record { confirm = refl; deleting = refl; sent = refl }
step-SameDialog c (header_clicked key) p q = record { confirm = refl; deleting = refl; sent = refl }
step-SameDialog c all_clicked p q = record { confirm = refl; deleting = refl; sent = refl }
step-SameDialog c clear_clicked p q = record { confirm = refl; deleting = refl; sent = refl }
step-SameDialog c (box_clicked key) p q = elim (Bool-cases (member key (shown_keys c p))) [
  | inl e ↦ rw e (record { confirm = refl; deleting = refl; sent = refl })
  | inr e ↦ rw e (same p)
]
step-SameDialog c (row_clicked key) p q =
    opened
      (find (λ r. key_of r == key) (sorted_pods c p.namespaces p.name_filter p.sort_state p.pods))
  where
    opened :
        (o : Option Pod)
        → SameDialog p (elim o [
          | none ↦ p
          | some pod ↦ record p { selected_pod = follow p.pods (some pod); panel_open = true }
        ])
    opened none = same p
    opened (some pod) = record { confirm = refl; deleting = refl; sent = refl }
step-SameDialog c panel_closed p q = record { confirm = refl; deleting = refl; sent = refl }
step-SameDialog c panel_delete_clicked p q = cc
step-SameDialog c delete_clicked p q = cc
step-SameDialog c cancel_clicked p q = cc
step-SameDialog c backdrop_clicked p q = cc
step-SameDialog c confirm_clicked p q = cc
step-SameDialog c (deletion_ended good) p q = cc

pub run-SameDialog :
    (c : Collation) (es : List Event) (p : PodsPage)
    → All (λ e. is_quiet e ≡ true) es
    → SameDialog p (run c es p)
unfolding run
run-SameDialog c [] p q = same p
run-SameDialog c (e ∷ es) p (q, qs) =
    trans p (step c e p) (run c es (step c e p)) (step-SameDialog c e p q)
      (run-SameDialog c es (step c e p) qs)

-- A change of the view keeps the selection and the dialog.
pub run_view :
    (c : Collation) (es : List Event) (p : PodsPage)
    → All (λ e. is_view e ≡ true) es
    → ((run c es p).selected_rows ≡ p.selected_rows)
      × ((run c es p).deleting ≡ p.deleting)
      × ((run c es p).sent ≡ p.sent)
unfolding run step
run_view c [] p v = (refl, refl, refl)
run_view c (namespaces_chosen ns ∷ es) p (v, vs) = run_view c es (record p { namespaces = ns }) vs
run_view c (name_typed text ∷ es) p (v, vs) = run_view c es (record p { name_filter = text }) vs
run_view c (header_clicked key ∷ es) p (v, vs) =
    run_view c es (record p { sort_state = next_sort key p.sort_state }) vs
run_view c (listed rows ∷ es) p (v, vs) = cc
run_view c (all_clicked ∷ es) p (v, vs) = cc
run_view c (clear_clicked ∷ es) p (v, vs) = cc
run_view c (box_clicked key ∷ es) p (v, vs) = cc
run_view c (row_clicked key ∷ es) p (v, vs) = cc
run_view c (panel_closed ∷ es) p (v, vs) = cc
run_view c (panel_delete_clicked ∷ es) p (v, vs) = cc
run_view c (delete_clicked ∷ es) p (v, vs) = cc
run_view c (cancel_clicked ∷ es) p (v, vs) = cc
run_view c (backdrop_clicked ∷ es) p (v, vs) = cc
run_view c (confirm_clicked ∷ es) p (v, vs) = cc
run_view c (deletion_ended good ∷ es) p (v, vs) = cc

pub run-append :
    (c : Collation) (es fs : List Event) (p : PodsPage) → run c (es ++ fs) p ≡ run c fs (run c es p)
unfolding run
run-append c [] fs p = refl
run-append c (e ∷ es) fs p = run-append c es fs (step c e p)
