-- ===== src/Pods/Status.antt =====
-- How `transformPod` of frontend/src/hooks/useRealtimePods.ts decides a pod's status and the
-- error message beside it.
pub mod Priority
pub mod Running
pub mod Errors
pub mod Told
use pertisk_kube_app.Base.{
  ℕ, String, Bool, true, false, not, ◌&&◌, ◌||◌, ◌++◌, Option, none, some, List, [], ◌∷◌, ltb, eqb,
  is_some, if◌then◌else◌, ◌==◌,
}
use pertisk_kube_app.Base.Lists.{length, filter, find, any}
use pertisk_kube_app.Base.Text.{trim, trimmed, to_lower, member, nonempty, ◌<>◌}
use pertisk_kube_app.Pods.Raw.{
  Waiting, Terminated, ContainerState, ContainerStatus, Condition, Metadata, PodStatus, or_text,
  has_text, is_text,
}

-- The two variables that the status code assigns, `podStatus` and `lastErrorMessage`.
pub record Verdict : Type 0 where
  pub status : String
  pub last_error : Option String

-- setLastError: the first message that is found stays.
unfoldable pub set_last_error : Option String → Option String → Option String → Option String
set_last_error current reason message =
    let reason_text = trimmed reason in
    let message_text = trimmed message in
    if has_text current
    then current
    else if nonempty reason_text && nonempty message_text
    then some (reason_text <> ": " <> message_text)
    else if nonempty message_text
    then some message_text
    else if nonempty reason_text
    then some reason_text
    else current

abbrev fail_with : String → Option String → Option String → Verdict → Verdict
fail_with status reason message v = record {
  status = status;
  last_error = set_last_error v.last_error reason message;
}

-- exitCode !== 0
abbrev exit_failed : Option ℕ → Bool
exit_failed none = true
exit_failed (some n) = not (eqb n 0)

init_terminated : Option Terminated → Verdict → Verdict → Verdict
init_terminated none v rest = rest
init_terminated (some t) v rest =
    if exit_failed t.exit_code
    then fail_with ("Init:" <> or_text t.reason "Error") t.reason t.message v
    else rest

init_state : ContainerState → Verdict → Verdict → Verdict
init_state s v rest = elim s.waiting [
  | some w ↦ fail_with (or_text w.reason "PodInitializing") w.reason w.message v
  | none ↦
      if s.running
      then record v { status = "PodInitializing" }
      else init_terminated s.terminated v rest
]

-- The loop over the init containers.
unfoldable pub init_loop : List ContainerStatus → Verdict → Verdict
unfolding init_state init_terminated
init_loop [] v = v
init_loop (c ∷ cs) v = init_state c.state v (init_loop cs v)

pending_state : ContainerState → (not_ready : Bool) → Verdict → Option Verdict → Option Verdict
pending_state s not_ready v rest = elim s.waiting [
  | some w ↦
      if has_text w.reason
      then some (fail_with (or_text w.reason "") w.reason w.message v)
      else rest
  | none ↦ if s.running && not_ready then some (record v { status = "ContainerStarting" }) else rest
]

-- The loop over the containers of a pending pod; `none` leaves `foundWaitingReason` false.
unfoldable pub pending_loop : List ContainerStatus → Bool → Verdict → Option Verdict
unfolding pending_state
pending_loop [] not_ready v = none
pending_loop (c ∷ cs) not_ready v = pending_state c.state not_ready v (pending_loop cs not_ready v)

abbrev pub error_waiting_reasons : List String
error_waiting_reasons =
    "CrashLoopBackOff" ∷ "ImagePullBackOff" ∷ "ErrImagePull" ∷ "ErrImageNeverPull"
    ∷ "CreateContainerConfigError" ∷ "InvalidImageName" ∷ "CreateContainerError"
    ∷ "PreStartHookError" ∷ "PostStartHookError" ∷ []

-- errorWaitingReasons.includes(reason)
unfoldable pub is_error_reason : String → Bool
is_error_reason reason = member reason error_waiting_reasons

running_terminated : Option Terminated → Verdict → Option Verdict → Option Verdict
running_terminated none v rest = rest
running_terminated (some t) v rest =
    if has_text t.reason && not (is_text t.reason "Completed")
    then some (fail_with (or_text t.reason "") t.reason t.message v)
    else rest

running_state : ContainerState → Verdict → Option Verdict → Option Verdict
running_state s v rest = elim s.waiting [
  | some w ↦
      if has_text w.reason && is_error_reason (or_text w.reason "")
      then some (fail_with (or_text w.reason "") w.reason w.message v)
      else rest
  | none ↦ running_terminated s.terminated v rest
]

-- The loop over the containers of a running pod; `none` leaves `hasError` false.
unfoldable pub running_loop : List ContainerStatus → Verdict → Option Verdict
unfolding running_state running_terminated
running_loop [] v = none
running_loop (c ∷ cs) v = running_state c.state v (running_loop cs v)

failed_state : ContainerState → Verdict → Verdict → Verdict
failed_state s v rest = elim s.terminated [
  | some t ↦
      if has_text t.reason then fail_with (or_text t.reason "") t.reason t.message v else rest
  | none ↦ rest
]

-- The loop over the containers of a failed pod.
unfoldable pub failed_loop : List ContainerStatus → Verdict → Verdict
unfolding failed_state
failed_loop [] v = v
failed_loop (c ∷ cs) v = failed_state c.state v (failed_loop cs v)

abbrev pub ready_count : PodStatus → ℕ
ready_count s = length (filter (λ c. c.ready) s.container_statuses)

-- containers.length || containerStatuses.length || 0
abbrev pub total_count : ℕ → PodStatus → ℕ
total_count containers s = if eqb containers 0 then length s.container_statuses else containers

abbrev start_verdict : PodStatus → Verdict
start_verdict s = record { status = or_text s.phase "Unknown"; last_error = none }

or_creating : Verdict → Option Verdict → Verdict
or_creating v none = record v { status = "ContainerCreating" }
or_creating v (some w) = w

abbrev is_scheduled_condition : Condition → Bool
is_scheduled_condition c = is_text c.kind "PodScheduled"

pending_containers : ℕ → PodStatus → Verdict
pending_containers containers s =
    let v = start_verdict s in
    if eqb (length s.container_statuses) 0
    then record v { status = "ContainerCreating" }
    else or_creating v
        (pending_loop s.container_statuses (ltb (ready_count s) (total_count containers s)) v)

-- Priority 3: the pending phase.
unfoldable pub pending_verdict : ℕ → PodStatus → Verdict
unfolding pending_containers or_creating pending_loop
pending_verdict containers s = elim (find is_scheduled_condition s.conditions) [
  | some c ↦
      if is_text c.status "False"
      then fail_with (or_text c.reason "Unschedulable") c.reason c.message (start_verdict s)
      else pending_containers containers s
  | none ↦ pending_containers containers s
]

-- Priority 4: the running phase.
unfoldable pub running_verdict : ℕ → PodStatus → Verdict
running_verdict containers s = elim (running_loop s.container_statuses (start_verdict s)) [
  | some v ↦ v
  | none ↦ record (start_verdict s) {
    status = if ltb (ready_count s) (total_count containers s) then "NotReady" else "Running";
  }
]

-- Priority 6: the failed phase.
unfoldable pub failed_verdict : PodStatus → Verdict
failed_verdict s =
    let v = failed_loop s.container_statuses (start_verdict s) in
    if v.status == or_text s.phase "Unknown" then record v { status = "Error" } else v

-- The chain of priorities.
unfoldable pub primary_verdict : Metadata → ℕ → PodStatus → Verdict
unfolding pending_verdict running_verdict failed_verdict
primary_verdict m containers s =
    let phase = or_text s.phase "Unknown" in
    if has_text m.deletion_timestamp
    then record (start_verdict s) { status = "Terminating" }
    else if not (eqb (length s.init_container_statuses) 0) && phase == "Pending"
    then init_loop s.init_container_statuses (start_verdict s)
    else if phase == "Pending"
    then pending_verdict containers s
    else if phase == "Running"
    then running_verdict containers s
    else if phase == "Succeeded"
    then record (start_verdict s) { status = "Completed" }
    else if phase == "Failed"
    then failed_verdict s
    else start_verdict s

unfoldable pub is_healthy_status : String → Bool
is_healthy_status status =
    let normalized = to_lower status in
    normalized == "running" || normalized == "completed" || normalized == "succeeded"

abbrev is_failing_condition : Condition → Bool
is_failing_condition c =
    to_lower (or_text c.status "undefined") == "false" && (is_some c.message || is_some c.reason)

pub error_from_conditions : List Condition → Option String → Option String
error_from_conditions cs current = elim (find is_failing_condition cs) [
  | some c ↦ set_last_error current c.reason c.message
  | none ↦ current
]

-- The error message of a pod that is not healthy and whose containers name none.
unfoldable pub fallback_error : PodStatus → Verdict → Verdict
unfolding error_from_conditions is_healthy_status
fallback_error s v =
    if has_text v.last_error || is_healthy_status v.status
    then v
    else let from_status = set_last_error v.last_error s.reason s.message in
      record v {
        last_error =
            if has_text from_status
            then from_status
            else error_from_conditions s.conditions from_status;
      }

-- `status` and `last_error` of the row.
unfoldable pub pod_verdict : Metadata → ℕ → PodStatus → Verdict
unfolding primary_verdict fallback_error
pod_verdict m containers s = fallback_error s (primary_verdict m containers s)

abbrev is_live : ContainerStatus → Bool
is_live c = c.state.running || is_some c.state.waiting

-- getDisplayStatus
unfoldable pub display_status : Metadata → PodStatus → String
display_status m s =
    if is_text s.reason "Evicted"
    then "Evicted"
    else if has_text m.deletion_timestamp
    then (if any is_live
          (s.container_statuses ++ (s.init_container_statuses ++ s.ephemeral_container_statuses))
        then "Terminating"
        else if not (eqb (length m.finalizers) 0)
        then "Finalizing"
        else or_text s.phase "Unknown")
    else or_text s.phase "Unknown"
