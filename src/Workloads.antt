-- ===== src/Workloads.antt =====
-- The rows of deployments, stateful sets, daemon sets, replica sets and jobs, as
-- `transformDeployment` to `transformJob` of frontend/src/hooks/useRealtimeResources.ts make them.
-- The duration of a job is left out: it reads the clock.
pub mod Shared
pub mod Kinds
mod Tests
use pertisk_kube_app.Base.{
  ℕ, zero, suc, String, Bool, true, false, ◌&&◌, ◌||◌, Option, none, some, List, ltb, leb, eqb,
  if◌then◌else◌,
}
use pertisk_kube_app.Base.Json.{Json, decimal, or_else, obj, end}
use pertisk_kube_app.Base.Text.{◌<>◌}
use pertisk_kube_app.Pods.Row.{present}
use pertisk_kube_app.Resources.Kind.{RawItem}
use pertisk_kube_app.Workloads.Shared.{Head, Columns, columns, count_or, positive_or}

abbrev pub ratio : ℕ → ℕ → String
ratio n m = decimal n <> "/" <> decimal m

pub record DeploymentObject : Type 0 where
  pub head : Head
  pub replicas : Option ℕ
  pub ready_replicas : Option ℕ
  pub updated_replicas : Option ℕ
  pub available_replicas : Option ℕ
  pub images : List (Option String)
  pub match_labels : Json

pub record Deployment : Type 0 where
  pub columns : Columns
  pub status : String
  pub ready : String
  pub updated : ℕ
  pub available : ℕ
  pub images : List String
  pub selector_labels : Json

unfoldable pub deployment_status : (desired updated available : ℕ) → String
deployment_status desired updated available =
    if eqb desired 0
    then "Stopped"
    else if leb desired updated && leb desired available
    then "Running"
    else if ltb 0 updated || ltb 0 available
    then "Progressing"
    else "Pending"

unfoldable pub transform_deployment : RawItem DeploymentObject → Deployment
unfolding deployment_status present
transform_deployment raw =
    let desired = count_or raw.body.replicas 1 in
    let updated = count_or raw.body.updated_replicas 0 in
    let available = count_or raw.body.available_replicas 0 in
    record {
      columns = columns raw raw.body.head;
      status = deployment_status desired updated available;
      ready = ratio (count_or raw.body.ready_replicas 0) desired;
      updated = updated;
      available = available;
      images = present raw.body.images;
      selector_labels = raw.body.match_labels;
    }

pub record StatefulSetObject : Type 0 where
  pub head : Head
  pub replicas : Option ℕ
  pub ready_replicas : Option ℕ
  pub current_replicas : Option ℕ
  pub updated_replicas : Option ℕ
  pub images : List (Option String)

pub record StatefulSet : Type 0 where
  pub columns : Columns
  pub status : String
  pub ready : String
  pub current : ℕ
  pub updated : ℕ
  pub images : List String

unfoldable pub stateful_set_status : (desired ready current updated : ℕ) → String
stateful_set_status desired ready current updated =
    if eqb desired 0
    then "Stopped"
    else if leb desired ready
    then "Running"
    else if ltb 0 current || ltb 0 updated
    then "Progressing"
    else "Pending"

unfoldable pub transform_stateful_set : RawItem StatefulSetObject → StatefulSet
unfolding stateful_set_status present
transform_stateful_set raw =
    let desired = positive_or raw.body.replicas 0 in
    let ready = positive_or raw.body.ready_replicas 0 in
    let current = positive_or raw.body.current_replicas 0 in
    let updated = positive_or raw.body.updated_replicas 0 in
    record {
      columns = columns raw raw.body.head;
      status = stateful_set_status desired ready current updated;
      ready = ratio ready desired;
      current = current;
      updated = updated;
      images = present raw.body.images;
    }

pub record DaemonSetObject : Type 0 where
  pub head : Head
  pub desired_number_scheduled : Option ℕ
  pub current_number_scheduled : Option ℕ
  pub number_ready : Option ℕ
  pub number_available : Option ℕ
  pub updated_number_scheduled : Option ℕ
  pub node_selector : Json
  pub images : List (Option String)

pub record DaemonSet : Type 0 where
  pub columns : Columns
  pub status : String
  pub desired : ℕ
  pub current : ℕ
  pub ready : ℕ
  pub available : ℕ
  pub updated : ℕ
  pub node_selector : Json
  pub images : List String

unfoldable pub daemon_set_status : (desired current ready available : ℕ) → String
daemon_set_status desired current ready available =
    if eqb desired 0
    then "Stopped"
    else if leb desired ready && leb desired available
    then "Running"
    else if ltb 0 current
    then "Progressing"
    else "Pending"

unfoldable pub transform_daemon_set : RawItem DaemonSetObject → DaemonSet
unfolding daemon_set_status present
transform_daemon_set raw =
    let desired = positive_or raw.body.desired_number_scheduled 0 in
    let current = positive_or raw.body.current_number_scheduled 0 in
    let ready = positive_or raw.body.number_ready 0 in
    let available = positive_or raw.body.number_available 0 in
    record {
      columns = columns raw raw.body.head;
      status = daemon_set_status desired current ready available;
      desired = desired;
      current = current;
      ready = ready;
      available = available;
      updated = positive_or raw.body.updated_number_scheduled 0;
      node_selector = or_else raw.body.node_selector (obj end);
      images = present raw.body.images;
    }

pub record ReplicaSetObject : Type 0 where
  pub head : Head
  pub replicas : Option ℕ
  pub current_replicas : Option ℕ
  pub ready_replicas : Option ℕ
  pub available_replicas : Option ℕ
  pub images : List (Option String)

pub record ReplicaSet : Type 0 where
  pub columns : Columns
  pub status : String
  pub desired : ℕ
  pub current : ℕ
  pub ready : ℕ
  pub available : ℕ
  pub images : List String

unfoldable pub replica_set_status : (desired current ready available : ℕ) → String
replica_set_status desired current ready available =
    if eqb desired 0
    then "Stopped"
    else if leb desired ready && leb desired available
    then "Running"
    else if ltb 0 current || ltb 0 ready
    then "Progressing"
    else "Pending"

unfoldable pub transform_replica_set : RawItem ReplicaSetObject → ReplicaSet
unfolding replica_set_status present
transform_replica_set raw =
    let desired = positive_or raw.body.replicas 0 in
    let current = positive_or raw.body.current_replicas 0 in
    let ready = positive_or raw.body.ready_replicas 0 in
    let available = positive_or raw.body.available_replicas 0 in
    record {
      columns = columns raw raw.body.head;
      status = replica_set_status desired current ready available;
      desired = desired;
      current = current;
      ready = ready;
      available = available;
      images = present raw.body.images;
    }

pub record JobObject : Type 0 where
  pub head : Head
  pub completions : Option ℕ
  pub succeeded : Option ℕ
  pub failed : Option ℕ
  pub active : Option ℕ

pub record Job : Type 0 where
  pub columns : Columns
  pub status : String
  pub completions : String

unfoldable pub job_status : (completions succeeded failed active : ℕ) → String
job_status completions succeeded failed active =
    if leb completions succeeded
    then "Complete"
    else if ltb 0 failed
    then "Failed"
    else if ltb 0 active
    then "Running"
    else "Pending"

unfoldable pub transform_job : RawItem JobObject → Job
unfolding job_status
transform_job raw =
    let completions = positive_or raw.body.completions 1 in
    let succeeded = positive_or raw.body.succeeded 0 in
    record {
      columns = columns raw raw.body.head;
      status =
          job_status completions succeeded (positive_or raw.body.failed 0)
            (positive_or raw.body.active 0);
      completions = ratio succeeded completions;
    }
