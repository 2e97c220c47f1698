-- ===== src/Pods/Details.antt =====
-- The tables of a pod's detail panel that `transformPod` of
-- frontend/src/hooks/useRealtimePods.ts builds: probes, containers, volumes, tolerations and
-- anti-affinity rules.
use pertisk_kube_app.Base.{
  ℕ, String, Bool, true, false, not, ◌++◌, Option, none, some, List, [], ◌∷◌, map, if◌then◌else◌,
  ◌==◌,
}
use pertisk_kube_app.Base.Json.{Json, undefined, null, str, decimal, to_text, or_else}
use pertisk_kube_app.Base.Lists.{filter, find}
use pertisk_kube_app.Base.Text.{join, nonempty, ◌<>◌}
use pertisk_kube_app.Pods.Raw.{ContainerStatus, Condition, or_text, has_text}
use pertisk_kube_app.Pods.Spec.{
  HttpGet, Probe, Port, Env, Mount, Container, Source, Volume, Toleration, MatchExpression,
  AffinityTerm, PodSpec,
}

-- The joined parts, or "-" if there are none.
abbrev or_dash : String → List String → String
or_dash sep [] = "-"
or_dash sep (p ∷ ps) = join sep (p ∷ ps)

http_part : HttpGet → String
http_part h =
    "HTTP "
    <> or_text h.scheme "HTTP"
    <> " "
    <> or_text h.path "/"
    <> ":"
    <> to_text (or_else h.port (str "-"))

handler_parts : Probe → List String
handler_parts p = elim p.http_get [
  | some h ↦ http_part h ∷ []
  | none ↦ elim p.tcp_port [
    | some port ↦ ("TCP " <> to_text (or_else port (str "-"))) ∷ []
    | none ↦ elim p.exec_command [ [] ↦ [] | c ∷ cs ↦ ("Exec " <> join " " (c ∷ cs)) ∷ [] ]
  ]
]

abbrev seconds_part : String → Option ℕ → List String
seconds_part word none = []
seconds_part word (some n) = (word <> decimal n <> "s") ∷ []

unfoldable pub format_probe : Option Probe → String
unfolding handler_parts http_part join to_text decimal
format_probe none = "-"
format_probe (some p) = or_dash " | " (
    handler_parts p
    ++ (seconds_part "delay " p.initial_delay_seconds ++ seconds_part "period " p.period_seconds))

abbrev is_nullish : Json → Bool
is_nullish undefined = true
is_nullish null = true
is_nullish _ = false

unfoldable pub format_resources : Option (List (String × Json)) → String
unfolding join to_text decimal
format_resources none = "-"
format_resources (some entries) =
    or_dash ", "
      (map (λ e. e.0 <> ": " <> to_text e.1) (filter (λ e. not (is_nullish e.1)) entries))

pub record VolumeRow : Type 0 where
  pub name : String
  pub kind : String
  pub source : String
  pub read_only : Bool

abbrev source_text : Source → String
source_text s =
    or_text s.claim_name (or_text s.secret_name (or_text s.config_map_name (or_text s.path "-")))

unfoldable pub volume_row : Volume → VolumeRow
volume_row v = elim v.sources [
  | [] ↦ record { name = or_text v.name "-"; kind = "unknown"; source = "-"; read_only = false }
  | (key, source) ∷ _ ↦ record {
    name = or_text v.name "-";
    kind = key;
    source = source_text source;
    read_only = source.read_only;
  }
]

pub record EnvRow : Type 0 where
  pub key : Option String
  pub value : String
  pub source : Option String

unfoldable pub env_row : Env → EnvRow
env_row e = elim e.value [
  | some v ↦ record { key = e.name; value = v; source = none }
  | none ↦
      let f = e.value_from in
      if has_text f.field_path
      then record { key = e.name; value = or_text f.field_path ""; source = some "fieldRef" }
      else if has_text f.secret_name
      then record {
        key = e.name;
        value = or_text f.secret_name "" <> "/" <> or_text f.secret_key "";
        source = some "secret";
      }
      else if has_text f.config_map_name
      then record {
        key = e.name;
        value = or_text f.config_map_name "" <> "/" <> or_text f.config_map_key "";
        source = some "configMap";
      }
      else record { key = e.name; value = "<valueFrom>"; source = some "unknown" }
]

unfoldable pub port_text : Port → String
unfolding decimal
port_text p =
    (if has_text p.name then or_text p.name "" <> ": " else "")
    <> decimal p.container_port
    <> "/"
    <> or_text p.protocol "TCP"

unfoldable pub mount_text : Mount → String
mount_text m = m.name <> ": " <> m.mount_path <> (if m.read_only then " (ro)" else "")

pub record ContainerRow : Type 0 where
  pub name : String
  pub image : String
  pub ready : Bool
  pub restart_count : ℕ
  pub state : String
  pub status : String
  pub image_pull_policy : String
  pub ports : List String
  pub environment_variables : List EnvRow
  pub mounts : List String
  pub liveness : String
  pub readiness : String
  pub startup : String
  pub requests : String
  pub limits : String

-- a === b, where a missing name equals a missing name
abbrev same_name : Option String → Option String → Bool
same_name none none = true
same_name (some a) (some b) = a == b
same_name _ _ = false

unfoldable pub container_state : Option ContainerStatus → String
container_state none = "Waiting"
container_state (some c) = if c.state.running then "Running" else elim c.state.terminated [
  | some t ↦ or_text t.reason "Terminated"
  | none ↦ elim c.state.waiting [ some w ↦ or_text w.reason "Waiting" | none ↦ "Waiting" ]
]

abbrev is_ready : Option ContainerStatus → Bool
is_ready none = false
is_ready (some c) = c.ready

abbrev restarts_of : Option ContainerStatus → ℕ
restarts_of none = 0
restarts_of (some c) = c.restart_count

unfoldable pub container_row : List ContainerStatus → Container → ContainerRow
unfolding container_state format_probe format_resources env_row port_text mount_text
container_row statuses c =
    let found = find (λ s. same_name s.name c.name) statuses in
    record {
      name = or_text c.name "-";
      image = or_text c.image "-";
      ready = is_ready found;
      restart_count = restarts_of found;
      state = container_state found;
      status = if is_ready found then "Ready" else container_state found;
      image_pull_policy = or_text c.image_pull_policy "-";
      ports = map port_text c.ports;
      environment_variables = map env_row c.env;
      mounts = map mount_text c.volume_mounts;
      liveness = format_probe c.liveness_probe;
      readiness = format_probe c.readiness_probe;
      startup = format_probe c.startup_probe;
      requests = format_resources c.requests;
      limits = format_resources c.limits;
    }

pub record ConditionRow : Type 0 where
  pub kind : String
  pub status : String
  pub reason : Option String
  pub last_transition_time : Option String

unfoldable pub condition_row : Condition → ConditionRow
condition_row c = record {
  kind = or_text c.kind "-";
  status = or_text c.status "-";
  reason = c.reason;
  last_transition_time = c.last_transition_time;
}

pub record TolerationRow : Type 0 where
  pub key : String
  pub operator : String
  pub effect : String
  pub seconds : String
  pub value : Option String

unfoldable pub toleration_row : Toleration → TolerationRow
unfolding decimal
toleration_row t = record {
  key = or_text t.key "<all>";
  operator = or_text t.operator "Equal";
  effect = or_text t.effect "-";
  seconds = elim t.seconds [ some n ↦ decimal n | none ↦ "-" ];
  value = t.value;
}

abbrev values_text : Option (List String) → String
values_text none = ""
values_text (some vs) = join "," vs

abbrev bracketed : String → String
bracketed vals = if nonempty vals then " [" <> vals <> "]" else ""

expression_text : Option MatchExpression → String
expression_text none = "- -"
expression_text (some e) =
    or_text e.key "-" <> " " <> or_text e.operator "-" <> bracketed (values_text e.values)

term_text : AffinityTerm → String
unfolding expression_text
term_text t = expression_text t.expression <> " on " <> or_text t.topology_key "-"

-- The two loops that fill `antiAffinityRules`.
unfoldable pub anti_affinity_rules : PodSpec → List String
unfolding term_text join decimal
anti_affinity_rules s =
    map (λ t. "Required: " <> term_text t) s.required_anti_affinity
    ++ map (λ p. "Preferred(" <> decimal p.weight <> "): " <> term_text p.term)
        s.preferred_anti_affinity
