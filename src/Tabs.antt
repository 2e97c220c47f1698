-- ===== src/Tabs.antt =====
-- The tabs of the bottom panel: the state and the handlers of frontend/src/components/BottomPanel.tsx. A
-- handler runs on the state that was rendered last, so the events of a run are apart by a rendering;
-- `now` is Date.now() and `inner_height` that of the window. A button that is not rendered is not clicked.
pub mod Panel
pub mod Trace
pub mod FullScreen
pub mod Marks
pub mod Dirty
pub mod Unsaved
mod Tests
use pertisk_kube_app.Base.{
  ℕ, ◌+◌, ◌-◌, ◌*◌, ◌/◌, min, max, String, Bool, true, false, not, ◌&&◌, ◌||◌, Option, none, some,
  List, [], ◌∷◌, ◌++◌, map, if◌then◌else◌, ◌==◌,
}
use pertisk_kube_app.Base.Lists.{filter, find, any, update_all}
use pertisk_kube_app.Base.Json.{decimal}
use pertisk_kube_app.Base.Text.{◌<>◌, trim, trimmed, nonempty}

pub data TabType : Type 0 where
  pod_exec pod_files node_exec logs yaml_editor host_shell install_chart : TabType

abbrev pub type_text : TabType → String
type_text pod_exec = "pod-exec"
type_text pod_files = "pod-files"
type_text node_exec = "node-exec"
type_text logs = "logs"
type_text yaml_editor = "yaml-editor"
type_text host_shell = "host-shell"
type_text install_chart = "install-chart"

-- LABEL_MAP
abbrev pub label_of : TabType → String
label_of pod_exec = "Pod Shell"
label_of pod_files = "Pod Files"
label_of node_exec = "Node Shell"
label_of logs = "Logs"
label_of yaml_editor = "YAML"
label_of host_shell = "Terminal"
label_of install_chart = "Helm Install"

abbrev pub is_yaml : TabType → Bool
is_yaml yaml_editor = true
is_yaml _ = false

-- The chart of an install tab; `upgrades` says that it has an existing release.
pub record Chart : Type 0 where
  pub name : String
  pub repository : String
  pub version : String
  pub repository_url : String
  pub upgrades : Bool

-- OpenPanelTabOptions, without the type
pub record TabOptions : Type 0 where
  pub pod_name : Option String
  pub namespace : Option String
  pub container_name : Option String
  pub initial_command : Option String
  pub yaml_content : Option String
  pub title : Option String
  pub action_label : Option String
  pub release_name : Option String
  pub release_namespace : Option String
  pub chart : Option Chart

pub record TabTarget : Type 0 where
  pub namespace : String
  pub pod_name : String
  pub container_name : Option String

-- The fields of a tab with a YAML editor.
pub record YamlFields : Type 0 where
  pub content : String
  pub saved_content : String
  pub dirty : Bool
  pub title : Option String
  pub action_label : String
  pub release_name : Option String
  pub release_namespace : Option String

pub record PanelTab : Type 0 where
  pub id : String
  pub kind : TabType
  pub identity : Option String
  pub label : String
  pub target : Option TabTarget
  pub initial_command : Option String
  pub yaml : Option YamlFields
  pub chart : Option Chart

-- x ?? y
abbrev pub given : Option String → String → String
given none d = d
given (some s) d = s

-- makeTabIdentity
unfoldable pub tab_identity : TabType → TabOptions → Option String
tab_identity kind o =
    let of_pod =
      if nonempty (given o.pod_name "")
      then some (
          type_text kind
          <> ":"
          <> given o.namespace "default"
          <> ":"
          <> given o.pod_name ""
          <> ":"
          <> given o.container_name "")
      else none in
    let of_chart : Option String = elim o.chart [
      | none ↦ none
      | some c ↦
          some (type_text kind <> ":" <> c.repository_url <> ":" <> c.name <> ":" <> c.version)
    ] in
    elim kind [ pod_files ↦ of_pod | logs ↦ of_pod | install_chart ↦ of_chart | _ ↦ none ]

-- The label of a new tab.
unfoldable pub new_label : TabType → TabOptions → String
unfolding trim
new_label kind o =
    let of_chart : String = elim o.chart [
      | none ↦ given o.pod_name (label_of kind)
      | some c ↦
          (if c.upgrades then "Helm Upgrade: " else "Helm Install: ")
          <> c.repository
          <> "/"
          <> c.name
    ] in
    if nonempty (trimmed o.title) then trimmed o.title else elim kind [
      | yaml_editor ↦ label_of yaml_editor
      | install_chart ↦ of_chart
      | other ↦ given o.pod_name (label_of other)
    ]

-- The tab that doAddTab appends. `default_yaml` is the text DEFAULT_YAML.
unfoldable pub new_tab : (default_yaml : String) → (now : ℕ) → TabType → TabOptions → PanelTab
unfolding new_label tab_identity decimal
new_tab default_yaml now kind o = record {
  id = type_text kind <> "-" <> decimal now;
  kind = kind;
  identity = tab_identity kind o;
  label = new_label kind o;
  target = elim o.pod_name [
    | none ↦ none
    | some pod ↦
        if nonempty pod
        then some (record {
          namespace = given o.namespace "default";
          pod_name = pod;
          container_name = o.container_name;
        })
        else none
  ];
  initial_command = o.initial_command;
  yaml =
      if is_yaml kind
      then some (record {
        content = given o.yaml_content default_yaml;
        saved_content = given o.yaml_content default_yaml;
        dirty = false;
        title = o.title;
        action_label = given o.action_label "Apply";
        release_name = o.release_name;
        release_namespace = o.release_namespace;
      })
      else none;
  chart = elim kind [ install_chart ↦ o.chart | _ ↦ none ];
}
