-- ===== src/PodsPage/Tests.antt =====
-- Runs of the pods page, and its theorems at concrete pods.
use Prim.Native.Nat.{Ordering}
use Prim.Native.String.{compare}
use pertisk_kube_app.Base.{
  ℕ, Option, if◌then◌else◌, ◌≡◌, refl, true, ◌&&◌, ◌||◌, some, none, List, [], ◌∷◌, ◌++◌, map,
  String, ltb, ◌==◌, arith,
}
use pertisk_kube_app.Base.Json.{undefined, str, num}
use pertisk_kube_app.Base.Lists.{All, length, any, all}
use pertisk_kube_app.Base.Text.{member}
use pertisk_kube_app.Base.Distinct.{Distinct}
use pertisk_kube_app.Display.{matches_filter}
use pertisk_kube_app.Pods.Row.{Pod, key_of}
use pertisk_kube_app.Pods.Sync.{keys}
use pertisk_kube_app.PodsPage.Table.{SortState, asc, all_selected}
use pertisk_kube_app.PodsPage.Rows.{Collation, no_texts, sorted_pods}
use pertisk_kube_app.PodsPage.Page.{
  PodsPage, initial, shown_keys, request_of, Event, listed, name_typed, header_clicked, all_clicked,
  box_clicked, row_clicked, delete_clicked, backdrop_clicked, confirm_clicked, deletion_ended, step,
  run,
}
use pertisk_kube_app.PodsPage.Shown.{sorted_pods-Shows}
use pertisk_kube_app.PodsPage.Listed.{IsListed, run-IsListed}
use pertisk_kube_app.PodsPage.Checked.{all_selected-Every}
use pertisk_kube_app.PodsPage.Late.{late_success}
use pertisk_kube_app.PodsPage.Tooltips.{EventRow, tooltip_text, pod_name}
use pertisk_kube_app.PodsPage.Deleted.{Slashless, names, deletes_selected}

abbrev bytewise : Collation
bytewise = record {
  locale_compare = compare;
  numeric_compare = compare;
  dates = compare;
  bytes = λ x y. Ordering.eq;
}

abbrev pod : String → String → Pod
pod namespace name = record {
  name = name;
  namespace = namespace;
  status = str "Running";
  display_status = str "Running";
  phase = str "Running";
  last_error = undefined;
  ready = str "1/1";
  restarts = num 0;
  node = str "n1";
  pod_ip = str "10.0.0.1";
  age = str "2024-01-01T00:00:00Z";
  labels = undefined;
  annotations = undefined;
  cpu = str "-";
  memory = str "-";
  cpu_capacity = undefined;
  memory_capacity = undefined;
  cpu_usage_percent = undefined;
  memory_usage_percent = undefined;
  controlled_by = str "-";
  qos = str "Burstable";
  details = record {
    created = "";
    pod_ips = [];
    service_account = "-";
    qos_class = "-";
    conditions = [];
    tolerations = [];
    pod_anti_affinities = [];
    volumes = [];
    containers = [];
  };
}

abbrev three : List Pod
three = pod "apps" "web" ∷ pod "apps" "db" ∷ pod "jobs" "web" ∷ []

abbrev by_name : SortState
by_name = record { key = "name"; direction = asc }

in_order : keys (sorted_pods bytewise ("apps" ∷ []) " " by_name three) ≡ "apps/db" ∷ "apps/web" ∷ []
unfolding sorted_pods matches_filter
in_order = refl

sorted_pods-Shows_example :
    ((k : String)
      → member k (keys (sorted_pods bytewise ("apps" ∷ []) "web" by_name three))
        ≡ any
            (λ p.
              ((no_texts ("apps" ∷ []) || member p.namespace ("apps" ∷ []))
                && matches_filter (some p.name) "web")
              && key_of p == k)
            three)
    × Distinct (keys (sorted_pods bytewise ("apps" ∷ []) "web" by_name three))
sorted_pods-Shows_example =
    sorted_pods-Shows bytewise ("apps" ∷ []) "web" by_name three (refl, (refl, (refl, tt)))

abbrev session : List Event
session =
    listed three
    ∷ box_clicked "apps/db"
    ∷ row_clicked "jobs/web"
    ∷ all_clicked
    ∷ box_clicked "apps/web"
    ∷ []

two_selected : (run bytewise session (initial [] "")).selected_rows ≡ "apps/db" ∷ "jobs/web" ∷ []
unfolding run step matches_filter
two_selected = refl

run-IsListed_example : IsListed (run bytewise session (initial [] ""))
run-IsListed_example =
    run-IsListed bytewise [] "" session ((refl, (refl, (refl, tt))), (tt, (tt, (tt, (tt, tt)))))

abbrev selected : PodsPage
selected = record (initial [] "") { pods = three; selected_rows = "jobs/web" ∷ "apps/db" ∷ [] }

selected-IsListed : IsListed selected
selected-IsListed = record {
  pods_distinct = (refl, (refl, (refl, tt)));
  selected_distinct = (refl, (refl, tt));
  selected_listed = λ k m. ground arith;
  followed = refl;
}

all_selected-Every_example : all_selected (shown_keys bytewise selected) selected.selected_rows ≡ (
    ltb 0 (length (shown_keys bytewise selected))
    && all (λ k. member k selected.selected_rows) (shown_keys bytewise selected))
unfolding shown_keys matches_filter
all_selected-Every_example =
    all_selected-Every bytewise selected selected-IsListed (λ k m. ground arith)

-- The header's box is checked with no row of the table selected, where as many hidden rows are.
hidden_rows_check_the_box :
    all_selected
      (shown_keys bytewise (record selected {
        name_filter = "web";
        namespaces = "apps" ∷ [];
        selected_rows = "apps/db" ∷ [];
      }))
      ("apps/db" ∷ [])
    ≡ true
unfolding shown_keys matches_filter all_selected
hidden_rows_check_the_box = refl

three-Slashless : All Slashless three
three-Slashless = (omega arith, (omega arith, (omega arith, tt)))

-- The name filter hides both selected rows, and one pod goes while the dialog is open.
abbrev before : List Event
before = name_typed "nothing" ∷ header_clicked "cpu" ∷ []

abbrev during : List Event
during = listed (pod "apps" "db" ∷ []) ∷ all_clicked ∷ []

deletes_selected_example :
    ((run bytewise (before ++ (delete_clicked ∷ (during ++ (confirm_clicked ∷ [])))) selected).sent
      ≡ selected.sent ++ map request_of selected.selected_rows)
    × All (λ r. any (names r) selected.pods ≡ true) (map request_of selected.selected_rows)
deletes_selected_example =
    deletes_selected bytewise before during selected (refl, (refl, tt)) (refl, (refl, tt)) refl refl
      selected-IsListed three-Slashless

abbrev meanwhile : List Event
meanwhile = backdrop_clicked ∷ box_clicked "apps/web" ∷ delete_clicked ∷ confirm_clicked ∷ []

abbrev busy : PodsPage
busy = record selected { deleting = true }

late_success_example :
    ((run bytewise (meanwhile ++ (deletion_ended true ∷ [])) busy).sent ≡ busy.sent)
    × ((run bytewise (meanwhile ++ (deletion_ended true ∷ [])) busy).selected_rows ≡ [])
    × ((run bytewise (meanwhile ++ (deletion_ended true ∷ [])) busy).confirm ≡ none)
late_success_example = late_success bytewise meanwhile busy (refl, (refl, (refl, (refl, tt)))) refl

abbrev event_of_web : EventRow
event_of_web = record {
  involved_object = some "Pod/web";
  kind = none;
  name = none;
  namespace = some "apps";
  message = some "Pulled image";
  note = none;
  reason = some "Pulled";
  event_type = some "Normal";
  event_type_ = none;
  last_timestamp = some "2024-01-03";
  first_timestamp = none;
}

abbrev happened : List EventRow
happened =
    event_of_web
    ∷ record event_of_web {
      event_type = some "Warning";
      reason = some "FailedScheduling";
      message = some " no node fits ";
      last_timestamp = some "2024-01-02";
    }
    ∷ record event_of_web { involved_object = some "Node/n1" }
    ∷ event_of_web
    ∷ []

-- Days of January 2024, in place of instants.
abbrev day_of : String → Option ℕ
day_of s = if s == "2024-01-03" then some 3 else if s == "2024-01-02" then some 2 else none

warning_wins : tooltip_text day_of (λ s. "") "apps/web" happened ≡ some "no node fits"
unfolding tooltip_text
warning_wins = refl

-- Without the object, a pod's name is read from the event's name up to the first dot: a name that holds a
-- dot itself is cut.
dotted_name_is_cut :
    pod_name
      (record event_of_web { involved_object = none; kind = some "Pod"; name = some "web.v2.17a3" })
    ≡ "web"
unfolding pod_name
dotted_name_is_cut = refl
