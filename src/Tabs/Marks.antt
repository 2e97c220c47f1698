-- ===== src/Tabs/Marks.antt =====
-- Whether a YAML tab is marked as changed just where its text differs from the text that was saved.
use pertisk_kube_app.Base.{
  String, ◌≡◌, refl, ◌∙◌, Bool, true, false, not, inl, inr, Option, none, some, List, [], ◌∷◌, ◌++◌,
  ◌==◌, arith, eq_iff, Bool-cases,
}
use pertisk_kube_app.Base.Lists.{filter, any, update_all, any-append, All}
use pertisk_kube_app.Tabs.{YamlFields, PanelTab, new_tab}
use pertisk_kube_app.Tabs.Panel.{
  BottomPanel, has_id, Event, opened, closed, selected, connected, typed, apply_clicked,
  apply_ended, full_screen_clicked, escape_pressed, collapse_clicked, add_clicked, outside_clicked,
  dragged, step,
}
use pertisk_kube_app.Tabs.Trace.{any-update_all}

abbrev pub MarkedYaml : Option YamlFields → Type 0
MarkedYaml none = Unit
MarkedYaml (some y) = y.dirty ≡ not (y.content == y.saved_content)

abbrev pub IsMarked : PanelTab → Type 0
IsMarked t = MarkedYaml t.yaml

abbrev pub HasContent : String → Option YamlFields → Type 0
HasContent raw none = Unit
HasContent raw (some y) = y.content ≡ raw

-- A tab of the request that runs has the text that was sent.
abbrev pub IsSent : String → String → PanelTab → Type 0
IsSent id raw t = has_id id t ≡ true → HasContent raw t.yaml

abbrev pub Sent : Option (String × String) → List PanelTab → Type 0
Sent none tabs = Unit
Sent (some (id, raw)) tabs = All (IsSent id raw) tabs

abbrev pub DistinctIds : List PanelTab → Type 0
DistinctIds [] = Unit
DistinctIds (t ∷ ts) = (any (has_id t.id) ts ≡ false) × DistinctIds ts

pub record IsTrue (p : BottomPanel) : Type 0 where
  pub ids : DistinctIds p.tabs
  pub marked : All IsMarked p.tabs
  pub sent : Sent p.applying p.tabs

abbrev pub NotApplying : String → Option (String × String) → Type 0
NotApplying id none = Unit
NotApplying id (some (j, _)) = (j == id) ≡ false

-- The tab of a request that runs is not typed in, and a tab is opened under a new id: the ids carry the
-- time.
abbrev pub Calm : (default_yaml : String) → Event → BottomPanel → Type 0
Calm d (typed id content) p = NotApplying id p.applying
Calm d (opened now inner kind o) p =
    (any (has_id (new_tab d now kind o).id) p.tabs ≡ false)
    × NotApplying (new_tab d now kind o).id p.applying
Calm d (closed id) p = Unit
Calm d (selected id) p = Unit
Calm d (connected id target) p = Unit
Calm d apply_clicked p = Unit
Calm d (apply_ended good) p = Unit
Calm d (full_screen_clicked inner) p = Unit
Calm d escape_pressed p = Unit
Calm d collapse_clicked p = Unit
Calm d add_clicked p = Unit
Calm d outside_clicked p = Unit
Calm d (dragged inner wanted) p = Unit

abbrev pub CalmRun : (default_yaml : String) → List Event → BottomPanel → Type 0
CalmRun d [] p = Unit
CalmRun d (e ∷ es) p = Calm d e p × CalmRun d es (step d e p)

pub DistinctIds-append :
    (tabs : List PanelTab) (t : PanelTab)
    → any (has_id t.id) tabs ≡ false
    → DistinctIds tabs
    → DistinctIds (tabs ++ t ∷ [])
DistinctIds-append [] t fresh d = (refl, tt)
DistinctIds-append (u ∷ tabs) t fresh (apart, d) = (
  any-append (has_id u.id) tabs (t ∷ []) ∙ ground (arith, eq_iff t.id u.id, eq_iff u.id t.id),
  DistinctIds-append tabs t (ground arith) d,
)

any-filter :
    (id : String) (q : PanelTab → Bool) (tabs : List PanelTab)
    → any (has_id id) tabs ≡ false
    → any (has_id id) (filter q tabs) ≡ false
any-filter id q [] h = refl
any-filter id q (t ∷ tabs) h = elim (Bool-cases (q t)) [
  | inl e ↦ rw e (ground (arith, any-filter id q tabs))
  | inr e ↦ rw e (any-filter id q tabs (ground arith))
]

pub DistinctIds-filter :
    (q : PanelTab → Bool) (tabs : List PanelTab) → DistinctIds tabs → DistinctIds (filter q tabs)
DistinctIds-filter q [] d = tt
DistinctIds-filter q (t ∷ tabs) (apart, d) = elim (Bool-cases (q t)) [
  | inl e ↦ rw e (any-filter t.id q tabs apart, DistinctIds-filter q tabs d)
  | inr e ↦ rw e (DistinctIds-filter q tabs d)
]

pub DistinctIds-update_all :
    (q : PanelTab → Bool) (f : PanelTab → PanelTab)
    → ((t : PanelTab) → (f t).id ≡ t.id)
    → (tabs : List PanelTab) → DistinctIds tabs
    → DistinctIds (update_all q f tabs)
DistinctIds-update_all q f kept [] d = tt
DistinctIds-update_all q f kept (t ∷ tabs) (apart, d) = (
  elim (Bool-cases (q t)) [
    | inl e ↦ rw e (rw (kept t) (any-update_all q f kept t.id tabs ∙ apart))
    | inr e ↦ rw e (any-update_all q f kept t.id tabs ∙ apart)
  ],
  DistinctIds-update_all q f kept tabs d,
)
