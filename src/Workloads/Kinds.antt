-- ===== src/Workloads/Kinds.antt =====
-- What `createRealtimeHook` is given for the workloads, and that it meets the laws of a resource
-- keyed by namespace and name. Two rows count as changed where they differ.
use pertisk_kube_app.Base.{
  String, ◌≡◌, refl, ap, ap₂, ◌∙◌, Bool, true, false, Option, none, some, arith, ℕ_discrete,
  String-discrete,
}
use pertisk_kube_app.Base.Json.{Json-discrete}
use pertisk_kube_app.Base.Text.{◌<>◌}
use pertisk_kube_app.Pods.Raw.{or_text, has_text}
use pertisk_kube_app.Resources.Kind.{RawItem, Kind, IsLawful, shown, namespaced_key}
use pertisk_kube_app.Resources.RoundTrip.{IsNamespaced}
use pertisk_kube_app.Workloads.Shared.{Head, Columns, columns, column_key}
use pertisk_kube_app.Workloads.{
  Deployment, DeploymentObject, transform_deployment, StatefulSet, StatefulSetObject,
  transform_stateful_set, DaemonSet, DaemonSetObject, transform_daemon_set, ReplicaSet,
  ReplicaSetObject, transform_replica_set, Job, JobObject, transform_job,
}

abbrev pub Columns-discrete : Discrete Columns
Columns-discrete = hlevel (Json-discrete, String-discrete)

-- JSON.stringify(prev) !== JSON.stringify(next)
abbrev differs {ℓ} : {T : Type ℓ} → Discrete T → T → T → Bool
differs decide prev next = elim (decide prev next) [ yes e ↦ false | no e ↦ true ]

-- createRealtimeHook(type, ..., transform, (item) => `${item.namespace}/${item.name}`)
abbrev pub namespaced_kind {ℓ κ} :
    {Body : Type ℓ} {T : Type κ}
    → String
    → (RawItem Body → T)
    → (T → Columns)
    → Discrete T
    → Kind Body T
namespaced_kind resource_type transform columns_of decide = record {
  resource_type = resource_type;
  get_key = λ row. column_key (columns_of row);
  transform = transform;
  refresh = λ item prev. item;
  changed = differs decide;
  finish = λ rows. rows;
}

or_text-shown : (o : Option String) (d : String) → has_text o ≡ true → or_text o d ≡ shown o
or_text-shown none d h = cc
or_text-shown (some s) d h = ground arith

column_key-columns {ℓ} :
    {Body : Type ℓ} (raw : RawItem Body) (head : Head)
    → has_text raw.namespace ≡ true
    → has_text raw.name ≡ true
    → column_key (columns raw head) ≡ namespaced_key raw.namespace raw.name
column_key-columns raw head ns name =
    ap₂ (λ a b. a <> "/" <> b) (or_text-shown raw.namespace "default" ns)
      (or_text-shown raw.name "" name)

module _ {ℓ κ} {Body : Type ℓ} {T : Type κ} (resource_type : String) (transform : RawItem Body → T)
    (columns_of : T → Columns) (decide : Discrete T) where
  pub namespaced_kind-IsLawful :
      IsLawful (namespaced_kind resource_type transform columns_of decide)
  namespaced_kind-IsLawful = record { key-refresh = λ item prev. refl; keys-finish = λ rows. refl }

  pub namespaced_kind-IsNamespaced :
      (head : Body → Head)
      → ((raw : RawItem Body) → columns_of (transform raw) ≡ columns raw (head raw.body))
      → IsNamespaced (namespaced_kind resource_type transform columns_of decide)
  namespaced_kind-IsNamespaced head e = record {
    key-transform =
        λ raw ns name. ap column_key (e raw) ∙ column_key-columns raw (head raw.body) ns name;
  }

abbrev pub Deployment-discrete : Discrete Deployment
Deployment-discrete = hlevel (Json-discrete, String-discrete, ℕ_discrete, Columns-discrete)

abbrev pub StatefulSet-discrete : Discrete StatefulSet
StatefulSet-discrete = hlevel (Json-discrete, String-discrete, ℕ_discrete, Columns-discrete)

abbrev pub DaemonSet-discrete : Discrete DaemonSet
DaemonSet-discrete = hlevel (Json-discrete, String-discrete, ℕ_discrete, Columns-discrete)

abbrev pub ReplicaSet-discrete : Discrete ReplicaSet
ReplicaSet-discrete = hlevel (Json-discrete, String-discrete, ℕ_discrete, Columns-discrete)

abbrev pub Job-discrete : Discrete Job
Job-discrete = hlevel (Json-discrete, String-discrete, ℕ_discrete, Columns-discrete)

abbrev pub deployments : Kind DeploymentObject Deployment
deployments =
    namespaced_kind "deployments" transform_deployment (λ row. row.columns) Deployment-discrete

abbrev pub stateful_sets : Kind StatefulSetObject StatefulSet
stateful_sets =
    namespaced_kind "statefulsets" transform_stateful_set (λ row. row.columns) StatefulSet-discrete

abbrev pub daemon_sets : Kind DaemonSetObject DaemonSet
daemon_sets =
    namespaced_kind "daemonsets" transform_daemon_set (λ row. row.columns) DaemonSet-discrete

abbrev pub replica_sets : Kind ReplicaSetObject ReplicaSet
replica_sets =
    namespaced_kind "replicasets" transform_replica_set (λ row. row.columns) ReplicaSet-discrete

abbrev pub jobs : Kind JobObject Job
jobs = namespaced_kind "jobs" transform_job (λ row. row.columns) Job-discrete

-- The workloads are keyed by namespace and name.
pub deployments-IsNamespaced : IsNamespaced deployments
unfolding transform_deployment
deployments-IsNamespaced =
    namespaced_kind-IsNamespaced "deployments" transform_deployment (λ row. row.columns)
      Deployment-discrete (λ body. body.head) (λ raw. refl)

pub stateful_sets-IsNamespaced : IsNamespaced stateful_sets
unfolding transform_stateful_set
stateful_sets-IsNamespaced =
    namespaced_kind-IsNamespaced "statefulsets" transform_stateful_set (λ row. row.columns)
      StatefulSet-discrete (λ body. body.head) (λ raw. refl)

pub daemon_sets-IsNamespaced : IsNamespaced daemon_sets
unfolding transform_daemon_set
daemon_sets-IsNamespaced =
    namespaced_kind-IsNamespaced "daemonsets" transform_daemon_set (λ row. row.columns)
      DaemonSet-discrete (λ body. body.head) (λ raw. refl)

pub replica_sets-IsNamespaced : IsNamespaced replica_sets
unfolding transform_replica_set
replica_sets-IsNamespaced =
    namespaced_kind-IsNamespaced "replicasets" transform_replica_set (λ row. row.columns)
      ReplicaSet-discrete (λ body. body.head) (λ raw. refl)

pub jobs-IsNamespaced : IsNamespaced jobs
unfolding transform_job
jobs-IsNamespaced =
    namespaced_kind-IsNamespaced "jobs" transform_job (λ row. row.columns) Job-discrete
      (λ body. body.head) (λ raw. refl)
