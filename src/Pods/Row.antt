-- ===== src/Pods/Row.antt =====
-- A row of the pod list, and how `transformPod` of frontend/src/hooks/useRealtimePods.ts makes one
-- of a watched pod.
use pertisk_kube_app.Base.{
  ℕ, ◌+◌, String, Bool, ◌&&◌, Option, none, some, List, [], ◌∷◌, map, ltb, if◌then◌else◌, ◌==◌,
}
use pertisk_kube_app.Base.Json.{Json, undefined, str, num, obj, end, decimal, or_else}
use pertisk_kube_app.Base.Lists.{length, head?}
use pertisk_kube_app.Base.Text.{◌<>◌}
use pertisk_kube_app.Pods.Raw.{
  Metadata, PodStatus, ContainerStatus, OwnerReference, or_text, has_text,
}
use pertisk_kube_app.Pods.Spec.{PodSpec}
use pertisk_kube_app.Pods.Details.{
  VolumeRow, ContainerRow, ConditionRow, TolerationRow, volume_row, container_row, condition_row,
  toleration_row, anti_affinity_rules,
}
use pertisk_kube_app.Pods.Status.{ready_count, total_count, pod_verdict, display_status}

-- The fields of a row that neither a merge nor a reconciliation names.
pub record Details : Type 0 where
  pub created : String
  pub pod_ips : List String
  pub service_account : String
  pub qos_class : String
  pub conditions : List ConditionRow
  pub tolerations : List TolerationRow
  pub pod_anti_affinities : List String
  pub volumes : List VolumeRow
  pub containers : List ContainerRow

-- A row, from the watch or from the REST list; a field that an object lacks is `undefined`.
pub record Pod : Type 0 where
  pub name : String
  pub namespace : String
  pub status : Json
  pub display_status : Json
  pub phase : Json
  pub last_error : Json
  pub ready : Json
  pub restarts : Json
  pub node : Json
  pub pod_ip : Json
  pub age : Json
  pub labels : Json
  pub annotations : Json
  pub cpu : Json
  pub memory : Json
  pub cpu_capacity : Json
  pub memory_capacity : Json
  pub cpu_usage_percent : Json
  pub memory_usage_percent : Json
  pub controlled_by : Json
  pub qos : Json
  pub details : Details

-- `${namespace}/${name}`
abbrev pub key_of : Pod → String
key_of p = p.namespace <> "/" <> p.name

-- item.name === pod.name && item.namespace === pod.namespace
abbrev pub same_pod : Pod → Pod → Bool
same_pod pod item = item.name == pod.name && item.namespace == pod.namespace

pub record RawPod : Type 0 where
  pub metadata : Metadata
  pub status : PodStatus
  pub spec : PodSpec

total_restarts : List ContainerStatus → ℕ
total_restarts [] = 0
total_restarts (c ∷ cs) = c.restart_count + total_restarts cs

abbrev optional : Option String → Json
optional none = undefined
optional (some s) = str s

owner_text : Option OwnerReference → String
owner_text none = "-"
owner_text (some o) =
    if has_text o.kind && has_text o.name
    then or_text o.kind "" <> "/" <> or_text o.name ""
    else or_text o.kind "-"

unfoldable pub present : List (Option String) → List String
present [] = []
present (ip ∷ ips) = if has_text ip then or_text ip "" ∷ present ips else present ips

ready_text : ℕ → PodStatus → String
ready_text containers s =
    let total = total_count containers s in
    if ltb 0 total then decimal (ready_count s) <> "/" <> decimal total else "0/0"

unfoldable pub transform_details : RawPod → Details
unfolding present
transform_details raw = record {
  created = or_text raw.metadata.creation_timestamp "";
  pod_ips = present raw.status.pod_ips;
  service_account = or_text raw.spec.service_account_name "-";
  qos_class = or_text raw.status.qos_class "-";
  conditions = map condition_row raw.status.conditions;
  tolerations = map toleration_row raw.spec.tolerations;
  pod_anti_affinities = anti_affinity_rules raw.spec;
  volumes = map volume_row raw.spec.volumes;
  containers = map (container_row raw.status.container_statuses) raw.spec.containers;
}

unfoldable pub transform_pod : RawPod → Pod
unfolding total_restarts owner_text ready_text transform_details
transform_pod raw =
    let containers = length raw.spec.containers in
    let verdict = pod_verdict raw.metadata containers raw.status in
    record {
      name = or_text raw.metadata.name "";
      namespace = or_text raw.metadata.namespace "";
      status = str verdict.status;
      display_status = str (display_status raw.metadata raw.status);
      phase = str (or_text raw.status.phase "Unknown");
      last_error = optional verdict.last_error;
      ready = str (ready_text containers raw.status);
      restarts = num (total_restarts raw.status.container_statuses);
      node = str (or_text raw.spec.node_name "");
      pod_ip = str (or_text raw.status.pod_ip "");
      age = str (or_text raw.metadata.creation_timestamp "");
      labels = or_else raw.metadata.labels (obj end);
      annotations = or_else raw.metadata.annotations (obj end);
      cpu = str "-";
      memory = str "-";
      cpu_capacity = undefined;
      memory_capacity = undefined;
      cpu_usage_percent = undefined;
      memory_usage_percent = undefined;
      controlled_by = str (owner_text (head? raw.metadata.owner_references));
      qos = str (or_text raw.status.qos_class "-");
      details = transform_details raw;
    }
