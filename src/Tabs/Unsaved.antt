-- ===== src/Tabs/Unsaved.antt =====
-- What the mark of a YAML tab says after a run, and when it says it wrongly.
use pertisk_kube_app.Base.{
  ℕ, String, ◌≡◌, refl, Bool, true, false, inl, inr, Option, none, some, List, [], ◌∷◌,
  if◌then◌else◌, Option-cases,
}
use pertisk_kube_app.Base.Lists.{any, update_all, All, All-update_all}
use pertisk_kube_app.Tabs.{YamlFields, PanelTab}
use pertisk_kube_app.Tabs.Panel.{
  BottomPanel, initial, has_id, no_tabs, edit_fields, edit_yaml, type_in, mark_saved, update_yaml,
  finish_apply, toggle_full_screen, Event, opened, closed, selected, connected, typed,
  apply_clicked, apply_ended, full_screen_clicked, escape_pressed, collapse_clicked, add_clicked,
  outside_clicked, dragged, step, run,
}
use pertisk_kube_app.Tabs.Marks.{IsMarked, HasContent, IsSent, IsTrue, Calm, CalmRun}
use pertisk_kube_app.Tabs.Dirty.{
  same_tabs, add_tab-IsTrue, close_tab-IsTrue, connect_tab-IsTrue, update_yaml-IsTrue,
  start_apply-IsTrue, finish_apply-IsTrue,
}

if-IsTrue : (b : Bool) (p q : BottomPanel) → IsTrue p → IsTrue q → IsTrue (if b then p else q)
if-IsTrue true p q h k = h
if-IsTrue false p q h k = k

toggle_full_screen-IsTrue :
    (inner : ℕ) (p : BottomPanel) → IsTrue p → IsTrue (toggle_full_screen inner p)
unfolding toggle_full_screen
toggle_full_screen-IsTrue inner p h = elim (Option-cases p.saved_before) [
  | inl s ↦
      rw (s, toggle_full_screen)
        (if-IsTrue p.full_screen _ _ (same_tabs p _ refl refl h) (same_tabs p _ refl refl h))
  | inr (v, s) ↦
      rw (s, toggle_full_screen)
        (if-IsTrue p.full_screen _ _ (same_tabs p _ refl refl h) (same_tabs p _ refl refl h))
]

step-IsTrue :
    (d : String) (e : Event) (p : BottomPanel) → Calm d e p → IsTrue p → IsTrue (step d e p)
unfolding step
step-IsTrue d (opened now inner kind o) p c h = add_tab-IsTrue d now inner kind o p c.0 c.1 h
step-IsTrue d (closed id) p c h = if-IsTrue (any (has_id id) p.tabs) _ p (close_tab-IsTrue id p h) h
step-IsTrue d (selected id) p c h =
    if-IsTrue (any (has_id id) p.tabs) _ p (same_tabs p _ refl refl h) h
step-IsTrue d (connected id target) p c h = connect_tab-IsTrue id target p h
step-IsTrue d (typed id content) p c h = update_yaml-IsTrue id content p c h
step-IsTrue d apply_clicked p c h = start_apply-IsTrue p h
step-IsTrue d (apply_ended good) p c h = finish_apply-IsTrue good p h
step-IsTrue d (full_screen_clicked inner) p c h =
    if-IsTrue (no_tabs p.tabs) p _ h (toggle_full_screen-IsTrue inner p h)
step-IsTrue d escape_pressed p c h = same_tabs p _ refl refl h
step-IsTrue d collapse_clicked p c h = if-IsTrue (no_tabs p.tabs) p _ h (same_tabs p _ refl refl h)
step-IsTrue d add_clicked p c h =
    if-IsTrue p.add_menu _ _ (same_tabs p _ refl refl h) (same_tabs p _ refl refl h)
step-IsTrue d outside_clicked p c h = same_tabs p _ refl refl h
step-IsTrue d (dragged inner wanted) p c h = same_tabs p _ refl refl h

run-IsTrue :
    (d : String) (es : List Event) (p : BottomPanel)
    → CalmRun d es p
    → IsTrue p
    → IsTrue (run d es p)
unfolding run
run-IsTrue d [] p c h = h
run-IsTrue d (e ∷ es) p c h = run-IsTrue d es (step d e p) c.1 (step-IsTrue d e p c.0 h)

-- After a run in which no tab is typed in while its text is applied, and in which every tab is opened
-- under a new id, every YAML tab is marked as changed just where its text differs from the text that
-- was opened or applied last.
pub run-IsMarked :
    (default_yaml : String) (inner_height : ℕ) (es : List Event)
    → CalmRun default_yaml es (initial inner_height)
    → All IsMarked (run default_yaml es (initial inner_height)).tabs
run-IsMarked d inner_height es c =
    (run-IsTrue d es (initial inner_height) c (record { ids = tt; marked = tt; sent = tt })).marked

abbrev pub UnmarkedWith : String → Option YamlFields → Type 0
UnmarkedWith content none = Unit
UnmarkedWith content (some y) = (y.content ≡ content) × (y.dirty ≡ false)

typed_content :
    (content : String) (o : Option YamlFields)
    → HasContent content (edit_fields (type_in content) o)
typed_content content none = tt
typed_content content (some y) = refl

saved_unmarked :
    (raw content : String) (o : Option YamlFields)
    → HasContent content o
    → UnmarkedWith content (edit_fields (mark_saved raw) o)
saved_unmarked raw content none h = tt
saved_unmarked raw content (some y) h = (h, refl)

All-trivial : (tabs : List PanelTab) → All (λ _. Unit {0}) tabs
All-trivial [] = tt
All-trivial (t ∷ tabs) = (tt, All-trivial tabs)

-- Whatever is typed in a tab while its text is applied, the tab counts as saved once the request succeeds:
-- it then has the text that was typed and no mark.
pub typed_while_applying :
    (default_yaml id raw content : String) (p : BottomPanel)
    → p.applying ≡ some (id, raw)
    → All
        (λ t. has_id id t ≡ true → UnmarkedWith content t.yaml)
        (step default_yaml (apply_ended true) (step default_yaml (typed id content) p)).tabs
unfolding step finish_apply update_yaml
typed_while_applying d id raw content p e =
    rw (e, finish_apply)
      (All-update_all (IsSent id content) (λ t. has_id id t ≡ true → UnmarkedWith content t.yaml)
        (has_id id) (edit_yaml (mark_saved raw))
        (λ t same s h. saved_unmarked raw content t.yaml (s same)) (λ t other s h. cc)
        (update_all (has_id id) (edit_yaml (type_in content)) p.tabs)
        (All-update_all (λ _. Unit {0}) (IsSent id content) (has_id id)
          (edit_yaml (type_in content)) (λ t same s h. typed_content content t.yaml)
          (λ t other s h. cc) p.tabs (All-trivial p.tabs)))
