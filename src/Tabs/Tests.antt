-- ===== src/Tabs/Tests.antt =====
-- Runs of the bottom panel, and its theorems at concrete tabs.
use pertisk_kube_app.Base.{◌-◌, ◌≡◌, refl, true, false, none, some, List, [], ◌∷◌}
use pertisk_kube_app.Base.Lists.{All, length}
use pertisk_kube_app.Tabs.{yaml_editor, logs, TabOptions, new_tab}
use pertisk_kube_app.Tabs.Panel.{
  BottomPanel, initial, has_id, Event, opened, closed, typed, apply_clicked, apply_ended,
  full_screen_clicked, escape_pressed, step, run,
}
use pertisk_kube_app.Tabs.Trace.{IsCoherent, run-IsCoherent}
use pertisk_kube_app.Tabs.Marks.{IsMarked, CalmRun}
use pertisk_kube_app.Tabs.Unsaved.{run-IsMarked, UnmarkedWith, typed_while_applying}
use pertisk_kube_app.Tabs.FullScreen.{full_screen_exits}

abbrev no_options : TabOptions
no_options = record {
  pod_name = none;
  namespace = none;
  container_name = none;
  initial_command = none;
  yaml_content = none;
  title = none;
  action_label = none;
  release_name = none;
  release_namespace = none;
  chart = none;
}

abbrev logs_of_web : TabOptions
logs_of_web = record no_options { pod_name = some "web" }

-- The logs of a pod have one tab, however often they are opened.
one_tab_for_logs :
    length
      (run ""
        (opened 5 800 logs logs_of_web ∷ opened 9 800 logs logs_of_web ∷ [])
        (initial 800)).tabs
    ≡ 1
unfolding run step new_tab
one_tab_for_logs = refl

abbrev session : List Event
session =
    opened 5 800 yaml_editor no_options
    ∷ opened 9 800 logs logs_of_web
    ∷ closed "logs-9"
    ∷ typed "yaml-editor-5" "kind: Pod"
    ∷ apply_clicked
    ∷ apply_ended true
    ∷ []

last_tab_is_active : (run "" session (initial 800)).active ≡ some "yaml-editor-5"
unfolding run step new_tab
last_tab_is_active = refl

run-IsCoherent_example : IsCoherent (run "" session (initial 800))
run-IsCoherent_example = run-IsCoherent "" 800 session

session-CalmRun : CalmRun "" session (initial 800)
unfolding step new_tab
session-CalmRun = ((refl, tt), ((refl, tt), (tt, (tt, (tt, (tt, tt))))))

run-IsMarked_example : All IsMarked (run "" session (initial 800)).tabs
run-IsMarked_example = run-IsMarked "" 800 session session-CalmRun

abbrev applying : BottomPanel
applying = record (initial 800) {
  tabs =
      record {
        id = "yaml-editor-5";
        kind = yaml_editor;
        identity = none;
        label = "YAML";
        target = none;
        initial_command = none;
        yaml = some (record {
          content = "a";
          saved_content = "";
          dirty = true;
          title = none;
          action_label = "Apply";
          release_name = none;
          release_namespace = none;
        });
        chart = none;
      }
      ∷ [];
  active = some "yaml-editor-5";
  applying = some ("yaml-editor-5", "a");
}

typed_while_applying_example :
    All
      (λ t. has_id "yaml-editor-5" t ≡ true → UnmarkedWith "b" t.yaml)
      (step "" (apply_ended true) (step "" (typed "yaml-editor-5" "b") applying)).tabs
typed_while_applying_example = typed_while_applying "" "yaml-editor-5" "a" "b" applying refl

full_screen_exits_example :
    let full = step "" (full_screen_clicked 800) applying in
    let back = step "" (full_screen_clicked 700) full in
    let out = step "" escape_pressed full in
    (full.full_screen ≡ true)
    × (back ≡ record applying { saved_before = none })
    × (out.full_screen ≡ false)
    × (out.height ≡ 800 - 32)
    × (out.collapsed ≡ false)
full_screen_exits_example = full_screen_exits "" 800 700 applying refl refl
