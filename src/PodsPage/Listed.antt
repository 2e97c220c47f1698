-- ===== src/PodsPage/Listed.antt =====
-- What is selected on the page after any run of events.
use pertisk_kube_app.Base.{
  String, ◌≡◌, refl, ap, ◌∙◌, subst, Bool, true, false, not, ◌&&◌, inl, inr, Option, none, some,
  List, [], ◌∷◌, if◌then◌else◌, ◌==◌, arith, eq_iff, Bool-cases, Option-cases,
}
use pertisk_kube_app.Base.Lists.{All, filter, find, find-any}
use pertisk_kube_app.Base.Text.{member}
use pertisk_kube_app.Base.Distinct.{Distinct, member-append, Distinct-append, member-filter}
use pertisk_kube_app.Base.Sets.{Within, Distinct-filter}
use pertisk_kube_app.Pods.Row.{Pod, key_of, same_pod}
use pertisk_kube_app.Pods.Sync.{keys}
use pertisk_kube_app.PodsPage.Table.{click_all, click_row, select_all, select_row, all_selected}
use pertisk_kube_app.PodsPage.Rows.{Collation, no_texts, sorted_pods}
use pertisk_kube_app.PodsPage.Shown.{shown-listed, shown-Distinct}
use pertisk_kube_app.PodsPage.Page.{
  PodsPage, initial, shown_keys, follow, on_data, delete_selected, delete_single, start_delete,
  end_delete, Event, listed, namespaces_chosen, name_typed, header_clicked, all_clicked,
  clear_clicked, box_clicked, row_clicked, panel_closed, panel_delete_clicked, delete_clicked,
  cancel_clicked, backdrop_clicked, confirm_clicked, deletion_ended, step, run,
}

-- The list has no key twice; the selected rows are listed, each selected once; the pod of the panel is the
-- listed one of its name.
pub record IsListed (p : PodsPage) : Type 0 where
  pub pods_distinct : Distinct (keys p.pods)
  pub selected_distinct : Distinct p.selected_rows
  pub selected_listed : Within p.selected_rows (keys p.pods)
  pub followed : follow p.pods p.selected_pod ≡ p.selected_pod

-- The lists that arrive name no pod twice.
abbrev pub IsRegular : Event → Type 0
IsRegular (listed rows) = Distinct (keys rows)
IsRegular _ = Unit

-- The same pod and the same selection.
keep :
    (p p' : PodsPage)
    → p'.pods ≡ p.pods
    → p'.selected_rows ≡ p.selected_rows
    → p'.selected_pod ≡ p.selected_pod
    → IsListed p
    → IsListed p'
keep p p' pods rows pod h = record {
  pods_distinct = rw pods h.pods_distinct;
  selected_distinct = rw rows h.selected_distinct;
  selected_listed = rw pods (rw rows h.selected_listed);
  followed = rw pods (rw pod h.followed);
}

if-IsListed : (b : Bool) (p q : PodsPage) → IsListed p → IsListed q → IsListed (if b then p else q)
if-IsListed true p q h k = h
if-IsListed false p q h k = k

find-same :
    (pod q : Pod) (rows : List Pod)
    → find (same_pod pod) rows ≡ some q
    → find (same_pod q) rows ≡ some q
find-same pod q rows h = elim (find-any (same_pod pod) rows) [
  | inl (a, e) ↦ cc
  | inr (r, e, same, a) ↦
      let found : r ≡ q = ground arith in
      let name : q.name ≡ pod.name =
        (eq_iff q.name pod.name).0
          (subst (λ x. (x.name == pod.name) ≡ true) found (ground arith)) in
      let namespace : q.namespace ≡ pod.namespace =
        (eq_iff q.namespace pod.namespace).0
          (subst (λ x. (x.namespace == pod.namespace) ≡ true) found (ground arith)) in
      ap (λ n. find (λ x. x.name == n && x.namespace == q.namespace) rows) name
      ∙ ap (λ n. find (λ x. x.name == pod.name && x.namespace == n) rows) namespace
      ∙ h
]

follow-twice : (rows : List Pod) (o : Option Pod) → follow rows (follow rows o) ≡ follow rows o
follow-twice rows none = refl
follow-twice rows (some pod) = elim (Option-cases (find (same_pod pod) rows)) [
  | inl e ↦ rw e refl
  | inr (q, e) ↦ rw e (find-same pod q rows e)
]

Within-filter : (f : String → Bool) (ks : List String) → Within (filter f ks) ks
Within-filter f ks k m = ground (arith, member-filter f ks k)

on_data-IsListed :
    (rows : List Pod) (p : PodsPage) → Distinct (keys rows) → IsListed p → IsListed (on_data rows p)
unfolding on_data
on_data-IsListed [] p d h = record {
  pods_distinct = d;
  selected_distinct = tt;
  selected_listed = λ k m. cc;
  followed = follow-twice [] p.selected_pod;
}
on_data-IsListed (r ∷ rows) p d h = record {
  pods_distinct = d;
  selected_distinct =
      Distinct-filter (λ k. member k (keys (r ∷ rows))) p.selected_rows h.selected_distinct;
  selected_listed =
      λ k m. ground (arith, member-filter (λ k. member k (keys (r ∷ rows))) p.selected_rows k);
  followed = follow-twice (r ∷ rows) p.selected_pod;
}

-- A selection that a click makes, of rows that are shown or selected.
reselect :
    (p : PodsPage) (rows : List String)
    → Distinct rows
    → Within rows (keys p.pods)
    → IsListed p
    → IsListed (record p { selected_rows = rows })
reselect p rows d w h = record {
  pods_distinct = h.pods_distinct;
  selected_distinct = d;
  selected_listed = w;
  followed = h.followed;
}

shown-Within : (c : Collation) (p : PodsPage) → Within (shown_keys c p) (keys p.pods)
unfolding shown_keys
shown-Within c p k m = shown-listed c p.namespaces p.name_filter p.sort_state k p.pods m

pub shown_keys-Distinct : (c : Collation) (p : PodsPage) → IsListed p → Distinct (shown_keys c p)
unfolding shown_keys
shown_keys-Distinct c p h =
    shown-Distinct c p.namespaces p.name_filter p.sort_state p.pods h.pods_distinct

click_all-IsListed :
    (c : Collation) (p : PodsPage)
    → IsListed p
    → IsListed (record p { selected_rows = click_all (shown_keys c p) p.selected_rows })
unfolding click_all select_all
click_all-IsListed c p h = elim (Bool-cases (all_selected (shown_keys c p) p.selected_rows)) [
  | inl e ↦ rw (e, click_all) (reselect p [] tt (λ k m. cc) h)
  | inr e ↦
      rw (e, click_all)
        (reselect p (shown_keys c p) (shown_keys-Distinct c p h) (shown-Within c p) h)
]

click_row-IsListed :
    (p : PodsPage) (key : String)
    → member key (keys p.pods) ≡ true
    → IsListed p
    → IsListed (record p { selected_rows = click_row key p.selected_rows })
unfolding click_row select_row
click_row-IsListed p key m h = elim (Bool-cases (member key p.selected_rows)) [
  | inl e ↦
      rw (e, click_row)
        (reselect p _ (Distinct-filter (λ k. not (k == key)) p.selected_rows h.selected_distinct)
          (λ k n. h.selected_listed k (Within-filter (λ k. not (k == key)) p.selected_rows k n)) h)
  | inr e ↦
      rw (e, click_row)
        (reselect p _
          (Distinct-append p.selected_rows (key ∷ []) h.selected_distinct (refl, tt) (e, tt))
          (λ k n. elim (Bool-cases (key == k)) [
            | inl same ↦ subst (λ x. member x (keys p.pods) ≡ true) ((eq_iff key k).0 same) m
            | inr other ↦
                h.selected_listed k (ground (arith, member-append k p.selected_rows (key ∷ [])))
          ])
          h)
]

delete_single-IsListed : (p : PodsPage) → IsListed p → IsListed (delete_single p)
unfolding delete_single
delete_single-IsListed p h = elim (Option-cases p.selected_pod) [
  | inl e ↦ rw (e, delete_single) h
  | inr (pod, e) ↦
      rw (e, delete_single) (if-IsListed p.panel_open _ p (keep p _ refl refl refl h) h)
]

delete_selected-IsListed : (p : PodsPage) → IsListed p → IsListed (delete_selected p)
unfolding delete_selected
delete_selected-IsListed p h =
    if-IsListed (no_texts p.selected_rows) p _ h (keep p _ refl refl refl h)

start_delete-IsListed : (p : PodsPage) → IsListed p → IsListed (start_delete p)
unfolding start_delete
start_delete-IsListed p h = elim (Option-cases p.confirm) [
  | inl e ↦ rw (e, start_delete) h
  | inr (asked, e) ↦ rw (e, start_delete) (if-IsListed p.deleting p _ h (keep p _ refl refl refl h))
]

end_delete-IsListed : (good : Bool) (p : PodsPage) → IsListed p → IsListed (end_delete good p)
unfolding end_delete
end_delete-IsListed good p h = if-IsListed (not p.deleting) p _ h (
    if-IsListed good _ _
      (keep (record p { selected_rows = [] }) _ refl refl refl (reselect p [] tt (λ k m. cc) h))
      (keep p _ refl refl refl h))

step-IsListed :
    (c : Collation) (e : Event) (p : PodsPage) → IsRegular e → IsListed p → IsListed (step c e p)
unfolding step
step-IsListed c (listed rows) p d h = on_data-IsListed rows p d h
step-IsListed c (namespaces_chosen ns) p d h = keep p _ refl refl refl h
step-IsListed c (name_typed text) p d h = keep p _ refl refl refl h
step-IsListed c (header_clicked key) p d h = keep p _ refl refl refl h
step-IsListed c all_clicked p d h = click_all-IsListed c p h
step-IsListed c clear_clicked p d h = reselect p [] tt (λ k m. cc) h
step-IsListed c (box_clicked key) p d h = elim (Bool-cases (member key (shown_keys c p))) [
  | inl e ↦ rw e (click_row-IsListed p key (shown-Within c p key e) h)
  | inr e ↦ rw e h
]
step-IsListed c (row_clicked key) p d h =
    opened
      (find (λ r. key_of r == key) (sorted_pods c p.namespaces p.name_filter p.sort_state p.pods))
  where
    opened :
        (o : Option Pod)
        → IsListed (elim o [
          | none ↦ p
          | some pod ↦ record p { selected_pod = follow p.pods (some pod); panel_open = true }
        ])
    opened none = h
    opened (some pod) = record {
      pods_distinct = h.pods_distinct;
      selected_distinct = h.selected_distinct;
      selected_listed = h.selected_listed;
      followed = follow-twice p.pods (some pod);
    }
step-IsListed c panel_closed p d h = keep p _ refl refl refl h
step-IsListed c panel_delete_clicked p d h = delete_single-IsListed p h
step-IsListed c delete_clicked p d h = delete_selected-IsListed p h
step-IsListed c cancel_clicked p d h = if-IsListed p.deleting p _ h (keep p _ refl refl refl h)
step-IsListed c backdrop_clicked p d h = keep p _ refl refl refl h
step-IsListed c confirm_clicked p d h = start_delete-IsListed p h
step-IsListed c (deletion_ended good) p d h = end_delete-IsListed good p h

run-IsListed_from :
    (c : Collation) (es : List Event) (p : PodsPage)
    → All IsRegular es
    → IsListed p
    → IsListed (run c es p)
unfolding run
run-IsListed_from c [] p r h = h
run-IsListed_from c (e ∷ es) p (r, rs) h =
    run-IsListed_from c es (step c e p) rs (step-IsListed c e p r h)

-- After any events whose lists name no pod twice, in any order, the selected rows are pods of the current
-- list, each selected once, and the pod of the panel, if there is one, is the current list's pod of its name
-- and namespace.
pub run-IsListed :
    (c : Collation) (namespaces : List String) (text : String) (es : List Event)
    → All IsRegular es
    → IsListed (run c es (initial namespaces text))
run-IsListed c namespaces text es r = run-IsListed_from c es (initial namespaces text) r (record {
  pods_distinct = tt;
  selected_distinct = tt;
  selected_listed = λ k m. cc;
  followed = refl;
})
