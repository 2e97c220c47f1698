-- ===== src/Workloads/Tests.antt =====
-- Runs of the hook of deployments, and the theorems on workloads at concrete objects.
use pertisk_kube_app.Base.{
  String, ◌≡◌, refl, true, not, ◌&&◌, none, some, List, [], ◌∷◌, eq_iff, ◌==◌,
}
use pertisk_kube_app.Base.Json.{undefined}
use pertisk_kube_app.Base.Text.{member}
use pertisk_kube_app.Resources.Kind.{RawItem, keys}
use pertisk_kube_app.Resources.Reducer.{on_update}
use pertisk_kube_app.Resources.Deletion.{IsOrdinary}
use pertisk_kube_app.Resources.RoundTrip.{added_deleted}
use pertisk_kube_app.Workloads.Shared.{Head}
use pertisk_kube_app.Workloads.{
  Deployment, DeploymentObject, transform_deployment, StatefulSetObject, transform_stateful_set,
  DaemonSetObject, transform_daemon_set, ReplicaSetObject, transform_replica_set,
}
use pertisk_kube_app.Workloads.Kinds.{
  deployments, Deployment-discrete, namespaced_kind-IsLawful, deployments-IsNamespaced,
}

abbrev plain : Head
plain = record { creation_timestamp = none; labels = undefined; annotations = undefined }

abbrev object {ℓ} : {Body : Type ℓ} → String → Body → RawItem Body
object name body = record {
  namespace = some "shop";
  name = some name;
  deletion_timestamp = none;
  own_namespace = none;
  own_name = none;
  body = body;
}

abbrev web : RawItem DeploymentObject
web = object "web" (record {
  head = plain;
  replicas = some 2;
  ready_replicas = some 1;
  updated_replicas = some 2;
  available_replicas = some 1;
  images = some "nginx" ∷ none ∷ [];
  match_labels = undefined;
})

abbrev db : RawItem StatefulSetObject
db = object "db" (record {
  head = plain;
  replicas = some 1;
  ready_replicas = some 1;
  current_replicas = some 1;
  updated_replicas = none;
  images = [];
})

abbrev agent : RawItem DaemonSetObject
agent = object "agent" (record {
  head = plain;
  desired_number_scheduled = some 3;
  current_number_scheduled = none;
  number_ready = none;
  number_available = none;
  updated_number_scheduled = none;
  node_selector = undefined;
  images = [];
})

abbrev old : RawItem ReplicaSetObject
old = object "web-1" (record {
  head = plain;
  replicas = some 0;
  current_replicas = none;
  ready_replicas = none;
  available_replicas = none;
  images = [];
})

web_progresses : (transform_deployment web).status ≡ "Progressing"
unfolding transform_deployment
web_progresses = refl

db_runs : (transform_stateful_set db).status ≡ "Running"
unfolding transform_stateful_set
db_runs = refl

agent_waits : (transform_daemon_set agent).status ≡ "Pending"
unfolding transform_daemon_set
agent_waits = refl

old_stopped : (transform_replica_set old).status ≡ "Stopped"
unfolding transform_replica_set
old_stopped = refl

deployments-IsOrdinary : IsOrdinary "deployments"
deployments-IsOrdinary = record {
  not_helm = λ e. let lie = (eq_iff "deployments" "helmreleases").1 e in cc;
  not_nodes = λ e. let lie = (eq_iff "deployments" "nodes").1 e in cc;
  not_events = λ e. let lie = (eq_iff "deployments" "events").1 e in cc;
  not_namespaces = λ e. let lie = (eq_iff "deployments" "namespaces").1 e in cc;
}

abbrev listed : List Deployment
listed = transform_deployment (object "api" web.body) ∷ []

added_deleted_example :
    (member "shop/web" (keys deployments (on_update deployments (some "ADDED") web listed)) ≡ true)
    × (member "shop/api" (
          keys deployments (
            on_update deployments
              (some "DELETED")
              web
              (on_update deployments (some "ADDED") web listed)))
        ≡ (member "shop/api" (keys deployments listed) && not ("shop/api" == "shop/web")))
added_deleted_example =
    added_deleted deployments web listed "shop/api"
      (namespaced_kind-IsLawful "deployments" transform_deployment (λ row. row.columns)
        Deployment-discrete)
      deployments-IsOrdinary deployments-IsNamespaced refl refl
