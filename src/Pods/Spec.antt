-- ===== src/Pods/Spec.antt =====
-- The part of a watched pod's `spec` that `transformPod` of
-- frontend/src/hooks/useRealtimePods.ts reads.
use pertisk_kube_app.Base.{ℕ, String, Bool, Option, List}
use pertisk_kube_app.Base.Json.{Json}

pub record HttpGet : Type 0 where
  pub scheme : Option String
  pub path : Option String
  pub port : Json

pub record Probe : Type 0 where
  pub http_get : Option HttpGet
  pub tcp_port : Option Json
  pub exec_command : List String
  pub initial_delay_seconds : Option ℕ
  pub period_seconds : Option ℕ

pub record Port : Type 0 where
  pub name : Option String
  pub container_port : ℕ
  pub protocol : Option String

pub record ValueFrom : Type 0 where
  pub field_path : Option String
  pub secret_name : Option String
  pub secret_key : Option String
  pub config_map_name : Option String
  pub config_map_key : Option String

pub record Env : Type 0 where
  pub name : Option String
  pub value : Option String
  pub value_from : ValueFrom

pub record Mount : Type 0 where
  pub name : String
  pub mount_path : String
  pub read_only : Bool

pub record Container : Type 0 where
  pub name : Option String
  pub image : Option String
  pub image_pull_policy : Option String
  pub ports : List Port
  pub env : List Env
  pub volume_mounts : List Mount
  pub liveness_probe : Option Probe
  pub readiness_probe : Option Probe
  pub startup_probe : Option Probe
  pub requests : Option (List (String × Json))
  pub limits : Option (List (String × Json))

pub record Source : Type 0 where
  pub claim_name : Option String
  pub secret_name : Option String
  pub config_map_name : Option String
  pub path : Option String
  pub read_only : Bool

-- `sources` holds the keys of the object other than `name`, in their order.
pub record Volume : Type 0 where
  pub name : Option String
  pub sources : List (String × Source)

pub record Toleration : Type 0 where
  pub key : Option String
  pub operator : Option String
  pub effect : Option String
  pub seconds : Option ℕ
  pub value : Option String

-- labelSelector.matchExpressions[0]; a `values` that is no array is `none`.
pub record MatchExpression : Type 0 where
  pub key : Option String
  pub operator : Option String
  pub values : Option (List String)

pub record AffinityTerm : Type 0 where
  pub expression : Option MatchExpression
  pub topology_key : Option String

pub record PreferredTerm : Type 0 where
  pub weight : ℕ
  pub term : AffinityTerm

pub record PodSpec : Type 0 where
  pub node_name : Option String
  pub service_account_name : Option String
  pub containers : List Container
  pub volumes : List Volume
  pub tolerations : List Toleration
  pub required_anti_affinity : List AffinityTerm
  pub preferred_anti_affinity : List PreferredTerm
