-- ===== src/Pods/Tests.antt =====
-- Runs of the pod hook's model, and its theorems at concrete pods.
use pertisk_kube_app.Base.{
  String, ◌≡◌, refl, true, false, not, ◌&&◌, none, some, List, [], ◌∷◌, arith, eq_iff, ltb,
  if◌then◌else◌,
}
use pertisk_kube_app.Base.Json.{undefined, str}
use pertisk_kube_app.Base.Lists.{find, All}
use pertisk_kube_app.Base.Text.{member, trim}
use pertisk_kube_app.Pods.Raw.{Waiting, ContainerState, ContainerStatus, Metadata, PodStatus}
use pertisk_kube_app.Pods.Spec.{PodSpec}
use pertisk_kube_app.Pods.Row.{Pod, RawPod, key_of, same_pod, transform_pod}
use pertisk_kube_app.Pods.Merge.{modified, reconcile}
use pertisk_kube_app.Pods.Keys.{NoSlash}
use pertisk_kube_app.Pods.Status.{
  pod_verdict, running_loop, set_last_error, ready_count, total_count, is_error_reason,
}
use pertisk_kube_app.Pods.Status.Errors.{describe}
use pertisk_kube_app.Pods.Status.Running.{
  waits, terminated, IsSound as IsSoundContainer, pod_verdict_running_sound,
  pod_verdict_running-Fails,
}
use pertisk_kube_app.Pods.Reducer.{apply_event}
use pertisk_kube_app.Pods.Reducer.Metrics.{KeepsMetrics, metrics_survive_event}
use pertisk_kube_app.Pods.Sync.{keys}
use pertisk_kube_app.Pods.Hook.{initial, listed, Event, updated, synced, step, run}
use pertisk_kube_app.Pods.Hook.Trace.{
  IsRegular, IsSound, run-IsSound, keys-synced, deleted_stays_gone,
}

abbrev quiet : ContainerState
quiet = record { running = true; waiting = none; terminated = none }

abbrev backing_off : Waiting
backing_off = record { reason = some "CrashLoopBackOff"; message = some " back-off 5m " }

abbrev web : ContainerStatus
web = record { name = some "web"; ready = true; restart_count = 0; state = quiet }

abbrev job : ContainerStatus
job = record {
  name = some "job";
  ready = false;
  restart_count = 4;
  state = record { running = false; waiting = some backing_off; terminated = none };
}

abbrev status_of : String → List ContainerStatus → PodStatus
status_of phase containers = record {
  phase = some phase;
  reason = none;
  message = none;
  qos_class = some "Burstable";
  pod_ip = some "10.0.0.7";
  pod_ips = some "10.0.0.7" ∷ none ∷ [];
  conditions = [];
  container_statuses = containers;
  init_container_statuses = [];
  ephemeral_container_statuses = [];
}

abbrev meta : String → Metadata
meta name = record {
  name = some name;
  namespace = some "apps";
  creation_timestamp = some "2024-01-01T00:00:00Z";
  deletion_timestamp = none;
  finalizers = [];
  owner_references = [];
  labels = undefined;
  annotations = undefined;
}

abbrev bare_spec : PodSpec
bare_spec = record {
  node_name = some "n1";
  service_account_name = none;
  containers = [];
  volumes = [];
  tolerations = [];
  required_anti_affinity = [];
  preferred_anti_affinity = [];
}

abbrev crashed : PodStatus
crashed = status_of "Running" (web ∷ job ∷ [])

abbrev healthy : PodStatus
healthy = status_of "Running" (web ∷ [])

abbrev raw : String → PodStatus → RawPod
raw name status = record { metadata = meta name; status = status; spec = bare_spec }

crashed_verdict :
    pod_verdict (meta "a") 2 crashed
    ≡ record { status = "CrashLoopBackOff"; last_error = some "CrashLoopBackOff: back-off 5m" }
unfolding pod_verdict running_loop is_error_reason set_last_error trim
crashed_verdict = refl

-- The container that runs fails in no way.
web-IsSound : IsSoundContainer web
web-IsSound reason message (waits w e er em known) = cc e
web-IsSound reason message (terminated t e et er em named other) = cc et

pod_verdict_running-Fails_example : pod_verdict (meta "a") 2 crashed ≡ record {
  status = "CrashLoopBackOff";
  last_error = some (describe "CrashLoopBackOff" (some " back-off 5m "));
}
unfolding is_error_reason trim
pod_verdict_running-Fails_example =
    pod_verdict_running-Fails (meta "a") 2 crashed (web ∷ []) job [] "CrashLoopBackOff"
      (some " back-off 5m ") (refl, refl) refl (web-IsSound, tt)
      (waits backing_off refl refl refl refl) (λ e. cc ((eq_iff "CrashLoopBackOff" "").1 e))

pod_verdict_running_sound_example :
    (pod_verdict (meta "a") 2 healthy).status
    ≡ (if ltb (ready_count healthy) (total_count 2 healthy) then "NotReady" else "Running")
pod_verdict_running_sound_example =
    pod_verdict_running_sound (meta "a") 2 healthy (refl, refl) (web-IsSound, tt)

-- The REST list's row of a pod, with metrics.
abbrev measured : RawPod → Pod
measured r = record (transform_pod r) { cpu = str "12m"; memory = str "40Mi" }

abbrev pod_a : RawPod
pod_a = raw "a" healthy

abbrev pod_b : RawPod
pod_b = raw "b" crashed

metrics_survive_event_example :
    (q' : Pod) × (find
        (same_pod (transform_pod pod_a))
        (apply_event modified (transform_pod pod_a) (measured pod_a ∷ [], [])).0
      ≡ some q')
    × KeepsMetrics (measured pod_a) q'
unfolding transform_pod
metrics_survive_event_example =
    metrics_survive_event modified pod_a (measured pod_a ∷ []) [] (measured pod_a) (λ e. cc e) refl
      refl

abbrev refreshed : Pod
refreshed = reconcile (transform_pod pod_a) (measured pod_a)

abbrev events : List Event
events =
    updated (str "ADDED") pod_a
    ∷ updated (str "added ") pod_b
    ∷ synced (listed (measured pod_a ∷ []))
    ∷ updated (str "DELETED") pod_a
    ∷ synced (listed (measured pod_a ∷ []))
    ∷ []

no_slash : NoSlash "apps"
no_slash = omega arith

listing-IsRegular : IsRegular (synced (listed (measured pod_a ∷ [])))
unfolding transform_pod
listing-IsRegular = ((no_slash, tt), (refl, tt))

events-IsRegular : All IsRegular events
events-IsRegular = (no_slash, (no_slash, (listing-IsRegular, (no_slash, (listing-IsRegular, tt)))))

run-IsSound_example : IsSound (run events initial)
unfolding transform_pod
run-IsSound_example = run-IsSound events events-IsRegular

keys-synced_example :
    member "apps/a" (keys (step (synced (listed (measured pod_a ∷ []))) (run events initial)).rows)
    ≡ (member "apps/a" (keys (measured pod_a ∷ []))
        && not (member "apps/a" (run events initial).marked))
unfolding transform_pod
keys-synced_example = keys-synced events (measured pod_a ∷ []) "apps/a" events-IsRegular

deleted_stays_gone_example :
    member (key_of (transform_pod pod_a)) (
      keys
        (run
          (updated (str "MODIFIED") pod_a ∷ synced (listed (measured pod_a ∷ [])) ∷ [])
          (step (updated (str "DELETED") pod_a) (run events initial))).rows)
    ≡ false
unfolding transform_pod
deleted_stays_gone_example =
    deleted_stays_gone pod_a
      (updated (str "MODIFIED") pod_a ∷ synced (listed (measured pod_a ∷ [])) ∷ [])
      (run events initial) (run-IsSound events events-IsRegular) no_slash
      (no_slash, (listing-IsRegular, tt)) (tt, (tt, tt))
