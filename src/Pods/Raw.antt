-- ===== src/Pods/Raw.antt =====
-- The watched pod object that `transformPod` of frontend/src/hooks/useRealtimePods.ts reads: the
-- fields of Kubernetes' Pod that it names. A missing text is `none`, a missing list is empty.
use pertisk_kube_app.Base.{ℕ, String, Bool, Option, none, some, List, if◌then◌else◌, ◌==◌}
use pertisk_kube_app.Base.Json.{Json}

pub record Waiting : Type 0 where
  pub reason : Option String
  pub message : Option String

pub record Terminated : Type 0 where
  pub exit_code : Option ℕ
  pub reason : Option String
  pub message : Option String

pub record ContainerState : Type 0 where
  pub running : Bool
  pub waiting : Option Waiting
  pub terminated : Option Terminated

pub record ContainerStatus : Type 0 where
  pub name : Option String
  pub ready : Bool
  pub restart_count : ℕ
  pub state : ContainerState

pub record Condition : Type 0 where
  pub kind : Option String
  pub status : Option String
  pub reason : Option String
  pub message : Option String
  pub last_transition_time : Option String

pub record OwnerReference : Type 0 where
  pub kind : Option String
  pub name : Option String

pub record Metadata : Type 0 where
  pub name : Option String
  pub namespace : Option String
  pub creation_timestamp : Option String
  pub deletion_timestamp : Option String
  pub finalizers : List String
  pub owner_references : List OwnerReference
  pub labels : Json
  pub annotations : Json

pub record PodStatus : Type 0 where
  pub phase : Option String
  pub reason : Option String
  pub message : Option String
  pub qos_class : Option String
  pub pod_ip : Option String
  pub pod_ips : List (Option String)
  pub conditions : List Condition
  pub container_statuses : List ContainerStatus
  pub init_container_statuses : List ContainerStatus
  pub ephemeral_container_statuses : List ContainerStatus

-- x || d, for a text that may be missing
abbrev pub or_text : Option String → String → String
or_text none d = d
or_text (some s) d = if s == "" then d else s

-- Boolean(x)
abbrev pub has_text : Option String → Bool
has_text none = Bool.false
has_text (some s) = if s == "" then Bool.false else Bool.true

-- x === s
abbrev pub is_text : Option String → String → Bool
is_text none s = Bool.false
is_text (some t) s = t == s
