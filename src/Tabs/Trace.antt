-- ===== src/Tabs/Trace.antt =====
-- Which tab is active after any run of events.
use pertisk_kube_app.Base.{
  ℕ, String, ◌≡◌, refl, sym, ap, ◌∙◌, Bool, true, false, not, ◌||◌, inl, inr, Option, none, some,
  List, [], ◌∷◌, ◌++◌, if◌then◌else◌, ◌==◌, arith, eq_iff, eq_refl, Bool-cases, Option-cases,
}
use pertisk_kube_app.Base.Lists.{filter, find, any, update_all, any-append}
use pertisk_kube_app.Tabs.{TabType, TabOptions, YamlFields, PanelTab, tab_identity, new_tab}
use pertisk_kube_app.Tabs.Panel.{
  BottomPanel, initial, has_identity, tab_of, add_tab, has_id, last_id, is_active, no_tabs,
  close_tab, with_target, edit_yaml, type_in, mark_saved, active_yaml, start_apply, finish_apply,
  toggle_full_screen, Event, opened, closed, selected, connected, typed, apply_clicked, apply_ended,
  full_screen_clicked, escape_pressed, collapse_clicked, add_clicked, outside_clicked, dragged,
  step, run,
}

-- The active tab is one of the tabs; there is none just where there are no tabs.
abbrev pub ActiveListed : Option String → List PanelTab → Type 0
ActiveListed none tabs = no_tabs tabs ≡ true
ActiveListed (some id) tabs = any (has_id id) tabs ≡ true

pub record IsCoherent (p : BottomPanel) : Type 0 where
  pub active_listed : ActiveListed p.active p.tabs
  pub full_screen_filled : p.full_screen ≡ true → no_tabs p.tabs ≡ false

find-has_id :
    (q : PanelTab → Bool) (tabs : List PanelTab) (t : PanelTab)
    → find q tabs ≡ some t
    → any (has_id t.id) tabs ≡ true
find-has_id q [] t h = cc
find-has_id q (u ∷ tabs) t h = elim (Bool-cases (q u)) [
  | inl e ↦ let same : u ≡ t = ground arith in rw (← same) (ground (arith, eq_refl u.id))
  | inr e ↦ ground (arith, find-has_id q tabs t)
]

tab_of-has_id :
    (o : Option String) (tabs : List PanelTab) (t : PanelTab)
    → tab_of o tabs ≡ some t
    → any (has_id t.id) tabs ≡ true
tab_of-has_id none tabs t h = cc
tab_of-has_id (some identity) tabs t h = find-has_id (has_identity identity) tabs t h

no_tabs-append : (tabs : List PanelTab) (t : PanelTab) → no_tabs (tabs ++ t ∷ []) ≡ false
no_tabs-append [] t = refl
no_tabs-append (u ∷ tabs) t = refl

no_tabs-of_any :
    (q : PanelTab → Bool) (tabs : List PanelTab) → any q tabs ≡ true → no_tabs tabs ≡ false
no_tabs-of_any q [] h = cc
no_tabs-of_any q (u ∷ tabs) h = refl

add_tab-IsCoherent :
    (default_yaml : String) (now inner : ℕ) (kind : TabType) (o : TabOptions) (p : BottomPanel)
    → IsCoherent p
    → IsCoherent (add_tab default_yaml now inner kind o p)
unfolding add_tab
add_tab-IsCoherent default_yaml now inner kind o p h =
    elim (Option-cases (tab_of (tab_identity kind o) p.tabs)) [
      | inr (t, e) ↦
          rw (e, add_tab)
            (record {
              active_listed = tab_of-has_id (tab_identity kind o) p.tabs t e;
              full_screen_filled = h.full_screen_filled;
            })
      | inl e ↦
          let fresh = new_tab default_yaml now kind o in
          rw (e, add_tab)
            (record {
              active_listed =
                  any-append (has_id fresh.id) p.tabs (fresh ∷ [])
                  ∙ ground (arith, eq_refl fresh.id);
              full_screen_filled = λ f. no_tabs-append p.tabs fresh;
            })
    ]

last_id-ActiveListed : (tabs : List PanelTab) → ActiveListed (last_id tabs) tabs
last_id-ActiveListed [] = refl
last_id-ActiveListed (t ∷ []) = ground (arith, eq_refl t.id)
last_id-ActiveListed (t ∷ u ∷ ts) = weaken (last_id (u ∷ ts)) (last_id-ActiveListed (u ∷ ts))
  where
    weaken : (o : Option String) → ActiveListed o (u ∷ ts) → ActiveListed o (t ∷ u ∷ ts)
    weaken none h = cc
    weaken (some id) h = ground arith

any-filter_other :
    (id i : String) (tabs : List PanelTab)
    → (i == id) ≡ false
    → any (has_id i) tabs ≡ true
    → any (has_id i) (filter (λ t. not (has_id id t)) tabs) ≡ true
any-filter_other id i [] other h = cc
any-filter_other id i (t ∷ tabs) other h =
    ground (arith, any-filter_other id i tabs other, eq_iff t.id i, eq_iff t.id id, eq_iff i id)

close_tab-IsCoherent : (id : String) (p : BottomPanel) → IsCoherent p → IsCoherent (close_tab id p)
unfolding close_tab
close_tab-IsCoherent id p h = record {
  active_listed = listed p.active h.active_listed;
  full_screen_filled = λ f. filled (filter (λ t. not (has_id id t)) p.tabs) p.full_screen f;
}
  where
    filled :
        (next : List PanelTab) (b : Bool)
        → (if no_tabs next then false else b) ≡ true
        → no_tabs next ≡ false
    filled [] b f = cc
    filled (_ ∷ _) b f = refl

    listed :
        (o : Option String)
        → ActiveListed o p.tabs
        → ActiveListed
            (if is_active id o then last_id (filter (λ t. not (has_id id t)) p.tabs) else o)
            (filter (λ t. not (has_id id t)) p.tabs)
    listed none a = none_left p.tabs a
      where
        none_left :
            (tabs : List PanelTab)
            → no_tabs tabs ≡ true
            → no_tabs (filter (λ t. not (has_id id t)) tabs) ≡ true
        none_left [] e = refl
        none_left (_ ∷ _) e = cc
    listed (some i) a = elim (Bool-cases (i == id)) [
      | inl e ↦ rw e (last_id-ActiveListed (filter (λ t. not (has_id id t)) p.tabs))
      | inr e ↦ rw e (any-filter_other id i p.tabs e a)
    ]

-- A change of tabs that keeps their ids keeps the panel sound.
module _ (q : PanelTab → Bool) (f : PanelTab → PanelTab)
    (kept : (t : PanelTab) → (f t).id ≡ t.id) where
  pub any-update_all :
      (id : String) (tabs : List PanelTab)
      → any (has_id id) (update_all q f tabs) ≡ any (has_id id) tabs
  any-update_all id [] = refl
  any-update_all id (t ∷ tabs) = elim (Bool-cases (q t)) [
    | inl e ↦ rw e (rw (kept t) (ap (λ b. t.id == id || b) (any-update_all id tabs)))
    | inr e ↦ rw e (ap (λ b. t.id == id || b) (any-update_all id tabs))
  ]

  no_tabs-update_all : (tabs : List PanelTab) → no_tabs (update_all q f tabs) ≡ no_tabs tabs
  no_tabs-update_all [] = refl
  no_tabs-update_all (_ ∷ _) = refl

  update_all-IsCoherent :
      (p p' : BottomPanel)
      → p'.tabs ≡ update_all q f p.tabs
      → p'.active ≡ p.active
      → p'.full_screen ≡ p.full_screen
      → IsCoherent p
      → IsCoherent p'
  update_all-IsCoherent p p' tabs active full h = record {
    active_listed = rw tabs (rw active (listed p.active h.active_listed));
    full_screen_filled =
        λ b. ap no_tabs tabs ∙ no_tabs-update_all p.tabs ∙ h.full_screen_filled (sym full ∙ b);
  }
    where
      listed : (o : Option String) → ActiveListed o p.tabs → ActiveListed o (update_all q f p.tabs)
      listed none a = no_tabs-update_all p.tabs ∙ a
      listed (some id) a = any-update_all id p.tabs ∙ a

pub edit_yaml-id : (f : YamlFields → YamlFields) (t : PanelTab) → (edit_yaml f t).id ≡ t.id
edit_yaml-id f t = refl

if-IsCoherent :
    (b : Bool) (p q : BottomPanel) → IsCoherent p → IsCoherent q → IsCoherent (if b then p else q)
if-IsCoherent true p q h k = h
if-IsCoherent false p q h k = k

-- The same tabs, with the same one active.
same_tabs :
    (p p' : BottomPanel)
    → p'.tabs ≡ p.tabs
    → p'.active ≡ p.active
    → p'.full_screen ≡ p.full_screen
    → IsCoherent p
    → IsCoherent p'
same_tabs p p' tabs active full h = record {
  active_listed = rw tabs (rw active h.active_listed);
  full_screen_filled = λ b. ap no_tabs tabs ∙ h.full_screen_filled (sym full ∙ b);
}

start_apply-IsCoherent : (p : BottomPanel) → IsCoherent p → IsCoherent (start_apply p)
unfolding start_apply
start_apply-IsCoherent p h = elim (Option-cases (active_yaml p)) [
  | inl e ↦ rw (e, start_apply) h
  | inr ((id, y), e) ↦ rw (e, start_apply) (if-IsCoherent _ _ p (same_tabs p _ refl refl refl h) h)
]

finish_apply-IsCoherent :
    (good : Bool) (p : BottomPanel) → IsCoherent p → IsCoherent (finish_apply good p)
unfolding finish_apply
finish_apply-IsCoherent good p h = elim (Option-cases p.applying) [
  | inl e ↦ rw (e, finish_apply) h
  | inr ((id, raw), e) ↦ rw (e, finish_apply) (ended good id raw)
]
  where
    ended :
        (b : Bool) (id raw : String)
        → IsCoherent (record p {
          tabs = if b then update_all (has_id id) (edit_yaml (mark_saved raw)) p.tabs else p.tabs;
          applying = none;
          result = some (b, id);
        })
    ended true id raw =
        update_all-IsCoherent (has_id id) (edit_yaml (mark_saved raw))
          (edit_yaml-id (mark_saved raw)) p _ refl refl refl h
    ended false id raw = same_tabs p _ refl refl refl h

toggle_full_screen-IsCoherent :
    (inner : ℕ) (p : BottomPanel)
    → no_tabs p.tabs ≡ false
    → IsCoherent p
    → IsCoherent (toggle_full_screen inner p)
unfolding toggle_full_screen
toggle_full_screen-IsCoherent inner p filled h = elim (Bool-cases p.full_screen) [
  | inl e ↦ elim (Option-cases p.saved_before) [
    | inl s ↦
        rw (e, toggle_full_screen)
          (rw (s, toggle_full_screen)
            (record { active_listed = h.active_listed; full_screen_filled = λ b. filled }))
    | inr (v, s) ↦
        rw (e, toggle_full_screen)
          (rw (s, toggle_full_screen)
            (record { active_listed = h.active_listed; full_screen_filled = λ b. filled }))
  ]
  | inr e ↦
      rw (e, toggle_full_screen)
        (record { active_listed = h.active_listed; full_screen_filled = λ b. filled })
]

step-IsCoherent :
    (default_yaml : String) (e : Event) (p : BottomPanel)
    → IsCoherent p
    → IsCoherent (step default_yaml e p)
unfolding step
step-IsCoherent d (opened now inner kind o) p h = add_tab-IsCoherent d now inner kind o p h
step-IsCoherent d (closed id) p h =
    if-IsCoherent (any (has_id id) p.tabs) (close_tab id p) p (close_tab-IsCoherent id p h) h
step-IsCoherent d (selected id) p h = elim (Bool-cases (any (has_id id) p.tabs)) [
  | inl e ↦ rw e (record { active_listed = e; full_screen_filled = h.full_screen_filled })
  | inr e ↦ rw e h
]
step-IsCoherent d (connected id target) p h =
    update_all-IsCoherent (has_id id) (with_target target) (λ t. refl) p _ refl refl refl h
step-IsCoherent d (typed id content) p h =
    update_all-IsCoherent (has_id id) (edit_yaml (type_in content)) (edit_yaml-id (type_in content))
      p _ refl refl refl h
step-IsCoherent d apply_clicked p h = start_apply-IsCoherent p h
step-IsCoherent d (apply_ended good) p h = finish_apply-IsCoherent good p h
step-IsCoherent d (full_screen_clicked inner) p h = elim (Bool-cases (no_tabs p.tabs)) [
  | inl e ↦ rw e h
  | inr e ↦ rw e (toggle_full_screen-IsCoherent inner p e h)
]
step-IsCoherent d escape_pressed p h = record {
  active_listed = h.active_listed;
  full_screen_filled = λ b. cc;
}
step-IsCoherent d collapse_clicked p h =
    if-IsCoherent (no_tabs p.tabs) p _ h (same_tabs p _ refl refl refl h)
step-IsCoherent d add_clicked p h =
    if-IsCoherent p.add_menu _ _ (same_tabs p _ refl refl refl h) (same_tabs p _ refl refl refl h)
step-IsCoherent d outside_clicked p h = same_tabs p _ refl refl refl h
step-IsCoherent d (dragged inner wanted) p h = same_tabs p _ refl refl refl h

run-IsCoherent_from :
    (default_yaml : String) (es : List Event) (p : BottomPanel)
    → IsCoherent p
    → IsCoherent (run default_yaml es p)
unfolding run
run-IsCoherent_from d [] p h = h
run-IsCoherent_from d (e ∷ es) p h = run-IsCoherent_from d es (step d e p) (step-IsCoherent d e p h)

-- After any events, the active tab is one of the open tabs, there is no active tab just where no tab is
-- open, and the panel fills the screen only where a tab is open.
pub run-IsCoherent :
    (default_yaml : String) (inner_height : ℕ) (es : List Event)
    → IsCoherent (run default_yaml es (initial inner_height))
run-IsCoherent d inner_height es =
    run-IsCoherent_from d es (initial inner_height)
      (record { active_listed = refl; full_screen_filled = λ b. cc })
