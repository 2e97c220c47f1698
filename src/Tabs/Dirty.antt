-- ===== src/Tabs/Dirty.antt =====
-- A YAML tab is marked as changed just where its text differs from the text that was saved, in runs in
-- which no text is changed while it is applied.
use pertisk_kube_app.Base.{
  ℕ, String, ◌≡◌, refl, sym, ap, ◌∙◌, subst, Bool, true, false, not, ◌&&◌, inl, inr, Option, none,
  some, List, [], ◌∷◌, ◌++◌, if◌then◌else◌, ◌==◌, arith, eq_iff, eq_refl, Bool-cases, Option-cases,
}
use pertisk_kube_app.Base.Lists.{
  filter, find, any, update_all, All, All-append, All-filter, All-update_all, All-weaken,
}
use pertisk_kube_app.Base.Text.{trim, nonempty}
use pertisk_kube_app.Tabs.{
  TabType, TabOptions, TabTarget, YamlFields, PanelTab, is_yaml, tab_identity, new_tab,
}
use pertisk_kube_app.Tabs.Panel.{
  tab_at, fields_with, yaml_at, BottomPanel, tab_of, add_tab, has_id, close_tab, connect_tab,
  with_target, edit_fields, edit_yaml, type_in, mark_saved, update_yaml, active_yaml, is_running,
  start_apply, finish_apply,
}
use pertisk_kube_app.Tabs.Trace.{edit_yaml-id}
use pertisk_kube_app.Tabs.Marks.{
  MarkedYaml, IsMarked, HasContent, IsSent, Sent, DistinctIds, IsTrue, NotApplying,
  DistinctIds-append, DistinctIds-filter, DistinctIds-update_all,
}

pub same_tabs :
    (p p' : BottomPanel) → p'.tabs ≡ p.tabs → p'.applying ≡ p.applying → IsTrue p → IsTrue p'
same_tabs p p' tabs applying h = record {
  ids = rw tabs h.ids;
  marked = rw tabs h.marked;
  sent = rw tabs (rw applying h.sent);
}

new_tab-IsMarked :
    (d : String) (now : ℕ) (kind : TabType) (o : TabOptions) → IsMarked (new_tab d now kind o)
unfolding new_tab
new_tab-IsMarked d now kind o = elim (Bool-cases (is_yaml kind)) [
  | inl e ↦ rw e (ground (arith, eq_refl (new_content d o)))
  | inr e ↦ rw e tt
]
  where
    new_content : String → TabOptions → String
    new_content d o = elim o.yaml_content [ none ↦ d | some s ↦ s ]

pub add_tab-IsTrue :
    (d : String) (now inner : ℕ) (kind : TabType) (o : TabOptions) (p : BottomPanel)
    → any (has_id (new_tab d now kind o).id) p.tabs ≡ false
    → NotApplying (new_tab d now kind o).id p.applying
    → IsTrue p
    → IsTrue (add_tab d now inner kind o p)
unfolding add_tab
add_tab-IsTrue d now inner kind o p fresh apart h =
    elim (Option-cases (tab_of (tab_identity kind o) p.tabs)) [
      | inr (t, e) ↦ rw (e, add_tab) (same_tabs p _ refl refl h)
      | inl e ↦
          let t = new_tab d now kind o in
          rw (e, add_tab)
            (record {
              ids = DistinctIds-append p.tabs t fresh h.ids;
              marked =
                  All-append IsMarked p.tabs (t ∷ []) h.marked (new_tab-IsMarked d now kind o, tt);
              sent = not_sent p.applying t apart h.sent;
            })
    ]
  where
    not_sent :
        (a : Option (String × String)) (t : PanelTab)
        → NotApplying t.id a
        → Sent a p.tabs
        → Sent a (p.tabs ++ t ∷ [])
    not_sent none t apart s = tt
    not_sent (some (id, raw)) t apart s =
        All-append (IsSent id raw) p.tabs (t ∷ []) s
          (λ same. absurd (ground (arith, eq_iff t.id id, eq_iff id t.id)), tt)

pub close_tab-IsTrue : (id : String) (p : BottomPanel) → IsTrue p → IsTrue (close_tab id p)
unfolding close_tab
close_tab-IsTrue id p h = record {
  ids = DistinctIds-filter (λ t. not (has_id id t)) p.tabs h.ids;
  marked = All-filter IsMarked (λ t. not (has_id id t)) p.tabs h.marked;
  sent = left p.applying h.sent;
}
  where
    left :
        (a : Option (String × String))
        → Sent a p.tabs
        → Sent a (filter (λ t. not (has_id id t)) p.tabs)
    left none s = tt
    left (some (j, raw)) s = All-filter (IsSent j raw) (λ t. not (has_id id t)) p.tabs s

pub connect_tab-IsTrue :
    (id : String) (target : TabTarget) (p : BottomPanel)
    → IsTrue p
    → IsTrue (connect_tab id target p)
unfolding connect_tab
connect_tab-IsTrue id target p h = record {
  ids = DistinctIds-update_all (has_id id) (with_target target) (λ t. refl) p.tabs h.ids;
  marked =
      All-update_all IsMarked IsMarked (has_id id) (with_target target) (λ t e m. m) (λ t e m. m)
        p.tabs h.marked;
  sent = still p.applying h.sent;
}
  where
    still :
        (a : Option (String × String))
        → Sent a p.tabs
        → Sent a (update_all (has_id id) (with_target target) p.tabs)
    still none s = tt
    still (some (j, raw)) s =
        All-update_all (IsSent j raw) (IsSent j raw) (has_id id) (with_target target) (λ t e m. m)
          (λ t e m. m) p.tabs s

type_in-MarkedYaml :
    (content : String) (o : Option YamlFields) → MarkedYaml (edit_fields (type_in content) o)
type_in-MarkedYaml content none = tt
type_in-MarkedYaml content (some y) = refl

mark_saved-MarkedYaml :
    (raw : String) (o : Option YamlFields)
    → HasContent raw o
    → MarkedYaml (edit_fields (mark_saved raw) o)
mark_saved-MarkedYaml raw none h = tt
mark_saved-MarkedYaml raw (some y) h = ground (arith, eq_iff y.content raw)

pub update_yaml-IsTrue :
    (id content : String) (p : BottomPanel)
    → NotApplying id p.applying
    → IsTrue p
    → IsTrue (update_yaml id content p)
unfolding update_yaml
update_yaml-IsTrue id content p apart h = record {
  ids =
      DistinctIds-update_all (has_id id) (edit_yaml (type_in content))
        (edit_yaml-id (type_in content)) p.tabs h.ids;
  marked =
      All-update_all IsMarked IsMarked (has_id id) (edit_yaml (type_in content))
        (λ t e m. type_in-MarkedYaml content t.yaml) (λ t e m. m) p.tabs h.marked;
  sent = other p.applying apart h.sent;
}
  where
    other :
        (a : Option (String × String))
        → NotApplying id a
        → Sent a p.tabs
        → Sent a (update_all (has_id id) (edit_yaml (type_in content)) p.tabs)
    other none apart s = tt
    other (some (j, raw)) apart s =
        All-update_all (IsSent j raw) (IsSent j raw) (has_id id) (edit_yaml (type_in content))
          (λ t e m same.
            let named : (t.id == j) ≡ true =
              ap (λ k. k == j) (sym (edit_yaml-id (type_in content) t)) ∙ same in
            absurd (ground (arith, eq_iff t.id j, eq_iff t.id id, eq_iff j id)))
          (λ t e m. m) p.tabs s

find_id :
    (id : String) (tabs : List PanelTab) (t : PanelTab)
    → find (has_id id) tabs ≡ some t
    → (t.id == id) ≡ true
find_id id [] t f = cc
find_id id (u ∷ tabs) t f = elim (Bool-cases (u.id == id)) [
  | inl e ↦ let same : u ≡ t = ground arith in ap (λ w. w.id == id) (sym same) ∙ e
  | inr e ↦ find_id id tabs t (ground arith)
]

-- The tab that is found under an id is the only one with it.
found_alone :
    (id : String) (tabs : List PanelTab) (t : PanelTab)
    → find (has_id id) tabs ≡ some t
    → DistinctIds tabs
    → All (λ u. has_id t.id u ≡ true → u ≡ t) tabs
found_alone id [] t f d = tt
found_alone id (u ∷ tabs) t f (apart, d) = elim (Bool-cases (u.id == id)) [
  | inl e ↦
      let same : u ≡ t = ground arith in
      (λ h. same, absent u.id tabs apart (λ v h. rw (ap (λ w. w.id) (sym same)) at h))
  | inr e ↦
      let rest : find (has_id id) tabs ≡ some t = ground arith in
      let named = find_id id tabs t rest in
      (
        λ h. absurd (ground (arith, eq_iff u.id id, eq_iff u.id t.id, eq_iff t.id id)),
        found_alone id tabs t rest d,
      )
]
  where
    absent :
        (i : String) (ts : List PanelTab)
        → any (has_id i) ts ≡ false
        → ((v : PanelTab) → has_id t.id v ≡ true → has_id i v ≡ true)
        → All (λ v. has_id t.id v ≡ true → v ≡ t) ts
    absent i [] a k = tt
    absent i (v ∷ ts) a k =
        (λ h. let lie = k v h in absurd (ground arith), absent i ts (ground arith) k)

fields_with-IsSent :
    (tabs : List PanelTab) (t : PanelTab) (id : String) (y : YamlFields) (o : Option YamlFields)
    → t.yaml ≡ o
    → All (λ u. has_id t.id u ≡ true → u ≡ t) tabs
    → fields_with t.id o ≡ some (id, y)
    → All (IsSent id y.content) tabs
fields_with-IsSent tabs t id y none f alone r = cc
fields_with-IsSent tabs t id y (some y') f alone r =
    let named : t.id ≡ id = ground arith in
    let same : y' ≡ y = ground arith in
    All-weaken (λ u. has_id t.id u ≡ true → u ≡ t) (IsSent id y.content)
      (λ u k h.
        let u_is : u ≡ t = k (ap (λ i. u.id == i) named ∙ h) in
        subst (HasContent y.content) (sym (ap (λ w. w.yaml) u_is ∙ f)) (ap (λ z. z.content) same))
      tabs alone

yaml_at-IsSent :
    (tabs : List PanelTab) (i id : String) (y : YamlFields) (o : Option PanelTab)
    → find (has_id i) tabs ≡ o
    → DistinctIds tabs
    → yaml_at o ≡ some (id, y)
    → All (IsSent id y.content) tabs
yaml_at-IsSent tabs i id y none f d r = cc
yaml_at-IsSent tabs i id y (some t) f d r =
    fields_with-IsSent tabs t id y t.yaml refl (found_alone i tabs t f d) r

tab_at-IsSent :
    (tabs : List PanelTab) (a : Option String) (id : String) (y : YamlFields)
    → DistinctIds tabs
    → yaml_at (tab_at a tabs) ≡ some (id, y)
    → All (IsSent id y.content) tabs
tab_at-IsSent tabs none id y d r = cc
tab_at-IsSent tabs (some i) id y d r = yaml_at-IsSent tabs i id y (find (has_id i) tabs) refl d r

pub start_apply-IsTrue : (p : BottomPanel) → IsTrue p → IsTrue (start_apply p)
unfolding start_apply
start_apply-IsTrue p h = elim (Option-cases (active_yaml p)) [
  | inl e ↦ rw (e, start_apply) h
  | inr ((id, y), e) ↦
      rw (e, start_apply)
        (either (y.dirty && not (is_running p.applying) && nonempty (trim y.content))
          (record p { applying = some (id, y.content); result = none })
          (record {
            ids = h.ids;
            marked = h.marked;
            sent = tab_at-IsSent p.tabs p.active id y h.ids e;
          }))
]
  where
    either : (b : Bool) (q : BottomPanel) → IsTrue q → IsTrue (if b then q else p)
    either true q k = k
    either false q k = h

pub finish_apply-IsTrue : (good : Bool) (p : BottomPanel) → IsTrue p → IsTrue (finish_apply good p)
unfolding finish_apply
finish_apply-IsTrue good p h = elim (Option-cases p.applying) [
  | inl e ↦ rw (e, finish_apply) h
  | inr ((id, raw), e) ↦
      rw (e, finish_apply) (ended good id raw (subst (λ a. Sent a p.tabs) e h.sent))
]
  where
    both :
        (id raw : String) (ts : List PanelTab)
        → All IsMarked ts
        → All (IsSent id raw) ts
        → All (λ t. IsMarked t × IsSent id raw t) ts
    both id raw [] m s = tt
    both id raw (t ∷ ts) m s = ((m.0, s.0), both id raw ts m.1 s.1)

    ended :
        (b : Bool) (id raw : String)
        → All (IsSent id raw) p.tabs
        → IsTrue (record p {
          tabs = if b then update_all (has_id id) (edit_yaml (mark_saved raw)) p.tabs else p.tabs;
          applying = none;
          result = some (b, id);
        })
    ended false id raw s = record { ids = h.ids; marked = h.marked; sent = tt }
    ended true id raw s = record {
      ids =
          DistinctIds-update_all (has_id id) (edit_yaml (mark_saved raw)) (λ t. refl) p.tabs h.ids;
      marked =
          All-update_all (λ t. IsMarked t × IsSent id raw t) IsMarked (has_id id)
            (edit_yaml (mark_saved raw)) (λ t same k. mark_saved-MarkedYaml raw t.yaml (k.1 same))
            (λ t e k. k.0) p.tabs (both id raw p.tabs h.marked s);
      sent = tt;
    }
