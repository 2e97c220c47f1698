-- ===== src/Resources/Tests.antt =====
-- Runs of a resource hook's model, and its theorems at concrete rows.
use pertisk_kube_app.Base.{
  ℕ, String, ◌≡◌, refl, true, Option, none, some, List, [], ◌∷◌, arith, eq_iff,
}
use pertisk_kube_app.Base.Lists.{All}
use pertisk_kube_app.Base.Text.{◌<>◌}
use pertisk_kube_app.Pods.Keys.{NoSlash}
use pertisk_kube_app.Resources.Kind.{RawItem, Kind, keys, IsLawful, shown}
use pertisk_kube_app.Resources.Reducer.{on_update}
use pertisk_kube_app.Resources.Deletion.{IsOrdinary, cluster_scoped_keeps_deleted}
use pertisk_kube_app.Resources.Hook.{initial, Event, updated, subscribed, snapshot, step, run}
use pertisk_kube_app.Resources.Trace.{IsDistinct, run-IsDistinct}

record Row : Type 0 where
  pub namespace : String
  pub name : String
  pub replicas : ℕ

abbrev object : Option String → String → ℕ → RawItem ℕ
object ns name replicas = record {
  namespace = ns;
  name = some name;
  deletion_timestamp = none;
  own_namespace = none;
  own_name = none;
  body = replicas;
}

abbrev row_of : RawItem ℕ → Row
row_of raw = record { namespace = shown raw.namespace; name = shown raw.name; replicas = raw.body }

abbrev deployments : Kind ℕ Row
deployments = record {
  resource_type = "deployments";
  get_key = λ r. r.namespace <> "/" <> r.name;
  transform = row_of;
  refresh = λ item prev. item;
  changed = λ prev next. true;
  finish = λ rows. rows;
}

abbrev volumes : Kind ℕ Row
volumes = record deployments { resource_type = "persistentvolumes"; get_key = λ r. r.name }

deployments-IsLawful : IsLawful deployments
deployments-IsLawful = record { key-refresh = λ item prev. refl; keys-finish = λ rows. refl }

abbrev web : RawItem ℕ
web = object (some "shop") "web" 3

abbrev data_volume : RawItem ℕ
data_volume = object none "data-0" 1

upserts :
    keys deployments (on_update deployments (some "added") web (row_of web ∷ [])) ≡ "shop/web" ∷ []
unfolding on_update
upserts = refl

deployments-IsOrdinary : IsOrdinary "deployments"
deployments-IsOrdinary = record {
  not_helm = λ e. let lie = (eq_iff "deployments" "helmreleases").1 e in cc;
  not_nodes = λ e. let lie = (eq_iff "deployments" "nodes").1 e in cc;
  not_events = λ e. let lie = (eq_iff "deployments" "events").1 e in cc;
  not_namespaces = λ e. let lie = (eq_iff "deployments" "namespaces").1 e in cc;
}

volumes-IsOrdinary : IsOrdinary "persistentvolumes"
volumes-IsOrdinary = record {
  not_helm = λ e. let lie = (eq_iff "persistentvolumes" "helmreleases").1 e in cc;
  not_nodes = λ e. let lie = (eq_iff "persistentvolumes" "nodes").1 e in cc;
  not_events = λ e. let lie = (eq_iff "persistentvolumes" "events").1 e in cc;
  not_namespaces = λ e. let lie = (eq_iff "persistentvolumes" "namespaces").1 e in cc;
}

data_volume-NoSlash : All NoSlash ("data-0" ∷ [])
data_volume-NoSlash = ground arith

cluster_scoped_keeps_deleted_example :
    on_update volumes (some "DELETED") data_volume (row_of data_volume ∷ [])
    ≡ row_of data_volume ∷ []
cluster_scoped_keeps_deleted_example =
    cluster_scoped_keeps_deleted volumes data_volume (row_of data_volume ∷ []) volumes-IsOrdinary
      data_volume-NoSlash

abbrev events : List (Event ℕ Row)
events =
    subscribed
    ∷ snapshot (row_of web ∷ [])
    ∷ updated (some "MODIFIED") (some web)
    ∷ updated (some "ADDED") (some (object (some "shop") "db" 1))
    ∷ updated (some "DELETED") (some web)
    ∷ []

events_leave : keys deployments ((run deployments events initial).rows) ≡ "shop/db" ∷ []
unfolding run step on_update
events_leave = refl

run-IsDistinct_example : IsDistinct deployments (run deployments events initial)
run-IsDistinct_example =
    run-IsDistinct deployments deployments-IsLawful events (tt, ((refl, tt), (tt, (tt, (tt, tt)))))
