-- ===== src/Pods/Merge.antt =====
-- Field by field, what a new row takes over from the row that it replaces
-- (frontend/src/hooks/useRealtimePods.ts).
use pertisk_kube_app.Base.{
  String, Bool, true, false, not, ◌&&◌, ◌||◌, Option, none, some, if◌then◌else◌, ◌==◌,
}
use pertisk_kube_app.Base.Json.{Json, undefined, null, str, nullish, or_else, is_str, to_text}
use pertisk_kube_app.Base.Text.{trim, to_lower, to_upper, nonempty}
use pertisk_kube_app.Pods.Row.{Pod}

-- val !== undefined && val !== null && val !== ''
unfoldable pub has_value : Json → Bool
has_value undefined = false
has_value null = false
has_value (str s) = nonempty s
has_value _ = true

unfoldable pub has_metric_value : Json → Bool
unfolding has_value
has_metric_value v = has_value v && not (is_str "-" v)

unfoldable pub keep_metric : Json → Json → Json
keep_metric next prev =
    if has_metric_value next
    then next
    else if has_metric_value prev
    then prev
    else if has_value next
    then next
    else if has_value prev
    then prev
    else str "-"

unfoldable pub keep_field : Json → Json → Json
keep_field next prev = if has_value next then next else prev

-- String(status ?? '').trim().toLowerCase() is one of three words
unfoldable pub is_healthy_pod_status : Json → Bool
is_healthy_pod_status status =
    let normalized = to_lower (trim (to_text (nullish status (str "")))) in
    normalized == "running" || normalized == "completed" || normalized == "succeeded"

trimmed_text : Json → String
trimmed_text (str s) = trim s
trimmed_text _ = ""

unfoldable pub freelens_display_status : Pod → String
unfolding trimmed_text
freelens_display_status p =
    let status_value = trimmed_text p.status in
    let phase_value = trimmed_text p.phase in
    if status_value == "Evicted" || status_value == "Terminating" || status_value == "Finalizing"
    then status_value
    else if nonempty phase_value
    then phase_value
    else if nonempty status_value
    then status_value
    else "Waiting"

pub data Action : Type 0 where
  added modified deleted : Action

-- normalizeWatchAction
unfoldable pub normalize_watch_action : Json → Option Action
unfolding trim to_upper
normalize_watch_action (str action) =
    let normalized = to_upper (trim action) in
    if normalized == "ADDED"
    then some added
    else if normalized == "MODIFIED" || normalized == "APPLIED"
    then some modified
    else if normalized == "DELETED"
    then some deleted
    else none
normalize_watch_action _ = none

-- `pod.x !== '-' ? pod.x : (existing.x || '-')`
abbrev unless_dash : Json → Json → Json
unless_dash new old = if is_str "-" new then or_else old (str "-") else new

-- A watched row over the row that it replaces.
unfoldable pub merge_event : Pod → Pod → Pod
merge_event pod existing = record pod {
  cpu = keep_metric pod.cpu existing.cpu;
  memory = keep_metric pod.memory existing.memory;
  cpu_capacity = keep_metric pod.cpu_capacity existing.cpu_capacity;
  memory_capacity = keep_metric pod.memory_capacity existing.memory_capacity;
  cpu_usage_percent = nullish pod.cpu_usage_percent existing.cpu_usage_percent;
  memory_usage_percent = nullish pod.memory_usage_percent existing.memory_usage_percent;
  controlled_by = unless_dash pod.controlled_by existing.controlled_by;
  qos = unless_dash pod.qos existing.qos;
}

abbrev display_or : Pod → Json
display_or api = nullish api.display_status (str (freelens_display_status api))

-- A listed row brought up to date by the REST row of its key.
unfoldable pub reconcile : Pod → Pod → Pod
reconcile api item =
    let status = keep_field api.status item.status in
    let display = keep_field (display_or api) item.display_status in
    record item {
      status = status;
      display_status = display;
      phase = keep_field api.phase item.phase;
      last_error =
          if is_healthy_pod_status display || is_healthy_pod_status status
          then undefined
          else keep_field api.last_error item.last_error;
      ready = keep_field api.ready item.ready;
      restarts = keep_field api.restarts item.restarts;
      node = keep_field api.node item.node;
      pod_ip = keep_field api.pod_ip item.pod_ip;
      age = keep_field api.age item.age;
      labels = keep_field api.labels item.labels;
      annotations = keep_field api.annotations item.annotations;
      cpu = keep_metric api.cpu item.cpu;
      memory = keep_metric api.memory item.memory;
      cpu_capacity = keep_metric api.cpu_capacity item.cpu_capacity;
      memory_capacity = keep_metric api.memory_capacity item.memory_capacity;
      cpu_usage_percent = nullish api.cpu_usage_percent item.cpu_usage_percent;
      memory_usage_percent = nullish api.memory_usage_percent item.memory_usage_percent;
      controlled_by =
          if is_str "-" item.controlled_by
          then nullish api.controlled_by item.controlled_by
          else item.controlled_by;
      qos = if is_str "-" item.qos then nullish api.qos item.qos else item.qos;
    }

-- A REST row that is new to the list.
unfoldable pub adopt : Pod → Pod
adopt api = record api { display_status = display_or api }
