-- ===== src/Tabs/Panel.antt =====
-- The state and the handlers of BottomPanel in frontend/src/components/BottomPanel.tsx.
use pertisk_kube_app.Base.{
  ℕ, ◌+◌, ◌-◌, ◌*◌, ◌/◌, min, max, String, Bool, true, false, not, ◌&&◌, Option, none, some, List,
  [], ◌∷◌, ◌++◌, if◌then◌else◌, ◌==◌,
}
use pertisk_kube_app.Base.Lists.{filter, find, any, update_all}
use pertisk_kube_app.Base.Text.{◌<>◌, trim, nonempty}
use pertisk_kube_app.Tabs.{
  TabType, pod_exec, pod_files, logs, type_text, TabOptions, TabTarget, YamlFields, PanelTab, given,
  tab_identity, new_tab,
}

-- `applying` is the request of handleYamlPrimaryAction that runs, with its tab and its text.
pub record BottomPanel : Type 0 where
  pub tabs : List PanelTab
  pub active : Option String
  pub collapsed : Bool
  pub height : ℕ
  pub full_screen : Bool
  pub saved_before : Option (ℕ × Bool)
  pub add_menu : Bool
  pub applying : Option (String × String)
  pub result : Option (Bool × String)

-- DEFAULT_PANEL_HEIGHT: Math.round(innerHeight * 0.5)
abbrev pub default_height : ℕ → ℕ
default_height inner_height = (inner_height + 1) / 2

abbrev pub initial : ℕ → BottomPanel
initial inner_height = record {
  tabs = [];
  active = none;
  collapsed = false;
  height = default_height inner_height;
  full_screen = false;
  saved_before = none;
  add_menu = false;
  applying = none;
  result = none;
}

abbrev pub has_identity : String → PanelTab → Bool
has_identity identity t = elim t.identity [ none ↦ false | some i ↦ i == identity ]

abbrev pub show_tab : ℕ → String → BottomPanel → BottomPanel
show_tab inner_height id p = record p {
  active = some id;
  collapsed = false;
  height = default_height inner_height;
  add_menu = false;
}

abbrev pub tab_of : Option String → List PanelTab → Option PanelTab
tab_of none tabs = none
tab_of (some identity) tabs = find (has_identity identity) tabs

-- doAddTab
unfoldable pub add_tab :
    (default_yaml : String)
    → (now inner_height : ℕ) → TabType
    → TabOptions
    → BottomPanel
    → BottomPanel
unfolding new_tab tab_identity
add_tab default_yaml now inner_height kind o p =
    let fresh = new_tab default_yaml now kind o in
    elim (tab_of (tab_identity kind o) p.tabs) [
      | some existing ↦ show_tab inner_height existing.id p
      | none ↦ show_tab inner_height fresh.id (record p { tabs = p.tabs ++ fresh ∷ [] })
    ]

abbrev pub has_id : String → PanelTab → Bool
has_id id t = t.id == id

abbrev pub last_id : List PanelTab → Option String
last_id [] = none
last_id (t ∷ []) = some t.id
last_id (t ∷ u ∷ ts) = last_id (u ∷ ts)

abbrev pub is_active : String → Option String → Bool
is_active id none = false
is_active id (some i) = i == id

abbrev pub no_tabs : List PanelTab → Bool
no_tabs [] = true
no_tabs (_ ∷ _) = false

-- closeTab of the last render. A tab that closes itself when an awaited installation has succeeded calls
-- that of an earlier one, which reads the tab that was active then.
unfoldable pub close_tab : String → BottomPanel → BottomPanel
close_tab id p =
    let next = filter (λ t. not (has_id id t)) p.tabs in
    record p {
      tabs = next;
      active = if is_active id p.active then last_id next else p.active;
      full_screen = if no_tabs next then false else p.full_screen;
    }

abbrev pub takes_identity : TabType → Bool
takes_identity pod_exec = true
takes_identity pod_files = true
takes_identity logs = true
takes_identity _ = false

abbrev pub with_target : TabTarget → PanelTab → PanelTab
with_target target t = record t {
  target = some target;
  label = target.pod_name;
  identity =
      if takes_identity t.kind
      then some (
          type_text t.kind
          <> ":"
          <> target.namespace
          <> ":"
          <> target.pod_name
          <> ":"
          <> given target.container_name "")
      else t.identity;
}

-- connectTab
unfoldable pub connect_tab : String → TabTarget → BottomPanel → BottomPanel
connect_tab id target p = record p { tabs = update_all (has_id id) (with_target target) p.tabs }

abbrev pub edit_fields : (YamlFields → YamlFields) → Option YamlFields → Option YamlFields
edit_fields f none = none
edit_fields f (some y) = some (f y)

abbrev pub edit_yaml : (YamlFields → YamlFields) → PanelTab → PanelTab
edit_yaml f t = record t { yaml = edit_fields f t.yaml }

abbrev pub type_in : String → YamlFields → YamlFields
type_in content y = record y { content = content; dirty = not (content == y.saved_content) }

abbrev pub mark_saved : String → YamlFields → YamlFields
mark_saved raw y = record y { saved_content = raw; dirty = false }

-- updateYaml
unfoldable pub update_yaml : String → String → BottomPanel → BottomPanel
update_yaml id content p =
    let result' : Option (Bool × String) = elim p.result [
      | none ↦ none
      | some (good, tab) ↦ if tab == id then none else some (good, tab)
    ] in
    record p {
      tabs = update_all (has_id id) (edit_yaml (type_in content)) p.tabs;
      result = result';
    }

-- activeTab
abbrev pub tab_at : Option String → List PanelTab → Option PanelTab
tab_at none tabs = none
tab_at (some id) tabs = find (has_id id) tabs

abbrev pub fields_with : String → Option YamlFields → Option (String × YamlFields)
fields_with id none = none
fields_with id (some y) = some (id, y)

abbrev pub yaml_at : Option PanelTab → Option (String × YamlFields)
yaml_at none = none
yaml_at (some t) = fields_with t.id t.yaml

abbrev pub active_yaml : BottomPanel → Option (String × YamlFields)
active_yaml p = yaml_at (tab_at p.active p.tabs)

abbrev pub is_running : Option (String × String) → Bool
is_running none = false
is_running (some _) = true

-- handleYamlPrimaryAction up to its requests. The button is enabled on a tab with changes only, and
-- while no other action runs.
unfoldable pub start_apply : BottomPanel → BottomPanel
unfolding trim
start_apply p = elim (active_yaml p) [
  | none ↦ p
  | some (id, y) ↦
      if y.dirty && not (is_running p.applying) && nonempty (trim y.content)
      then record p { applying = some (id, y.content); result = none }
      else p
]

-- What handleYamlPrimaryAction does once its requests have ended; the refresh that follows a success does
-- not fail.
unfoldable pub finish_apply : Bool → BottomPanel → BottomPanel
finish_apply good p = elim p.applying [
  | none ↦ p
  | some (id, raw) ↦ record p {
    tabs = if good then update_all (has_id id) (edit_yaml (mark_saved raw)) p.tabs else p.tabs;
    applying = none;
    result = some (good, id);
  }
]

-- toggleFullScreen
unfoldable pub toggle_full_screen : ℕ → BottomPanel → BottomPanel
toggle_full_screen inner_height p =
    let left : BottomPanel = elim p.saved_before [
      | none ↦ record p { full_screen = false; height = default_height inner_height }
      | some (height, collapsed) ↦ record p {
        full_screen = false;
        height = height;
        collapsed = collapsed;
        saved_before = none;
      }
    ] in
    if p.full_screen then left else record p {
      full_screen = true;
      saved_before = some (p.height, p.collapsed);
      collapsed = false;
      height = inner_height - 32;
    }

-- The listener for the Escape key.
abbrev pub press_escape : BottomPanel → BottomPanel
press_escape p = record p { full_screen = false }

-- handleAddClick; the menu has six items of 48 pixels.
abbrev pub add_click : BottomPanel → BottomPanel
add_click p =
    if p.add_menu
    then record p { add_menu = false }
    else record p { add_menu = true; collapsed = false; height = max p.height (6 * 48 + 40) }

-- onMove of handleDragStart, with the height that the mouse asks for
abbrev pub drag : (inner_height wanted : ℕ) → BottomPanel → BottomPanel
drag inner_height wanted p = record p { height = max 120 (min (inner_height - 80) wanted) }

pub data Event : Type 0 where
  opened : (now inner_height : ℕ) → TabType → TabOptions → Event
  closed selected : (id : String) → Event
  connected : (id : String) → TabTarget → Event
  typed : (id content : String) → Event
  apply_clicked : Event
  apply_ended : Bool → Event
  full_screen_clicked : (inner_height : ℕ) → Event
  escape_pressed collapse_clicked add_clicked outside_clicked : Event
  dragged : (inner_height wanted : ℕ) → Event

unfoldable pub step : (default_yaml : String) → Event → BottomPanel → BottomPanel
unfolding add_tab close_tab connect_tab update_yaml start_apply finish_apply toggle_full_screen
step default_yaml (opened now inner_height kind o) p =
    add_tab default_yaml now inner_height kind o p
step default_yaml (closed id) p = if any (has_id id) p.tabs then close_tab id p else p
step default_yaml (selected id) p =
    if any (has_id id) p.tabs then record p { active = some id; collapsed = false } else p
step default_yaml (connected id target) p = connect_tab id target p
step default_yaml (typed id content) p = update_yaml id content p
step default_yaml apply_clicked p = start_apply p
step default_yaml (apply_ended good) p = finish_apply good p
step default_yaml (full_screen_clicked inner_height) p =
    if no_tabs p.tabs then p else toggle_full_screen inner_height p
step default_yaml escape_pressed p = press_escape p
step default_yaml collapse_clicked p =
    if no_tabs p.tabs then p else record p { collapsed = not p.collapsed }
step default_yaml add_clicked p = add_click p
step default_yaml outside_clicked p = record p { add_menu = false }
step default_yaml (dragged inner_height wanted) p = drag inner_height wanted p

unfoldable pub run : (default_yaml : String) → List Event → BottomPanel → BottomPanel
run default_yaml [] p = p
run default_yaml (e ∷ es) p = run default_yaml es (step default_yaml e p)
