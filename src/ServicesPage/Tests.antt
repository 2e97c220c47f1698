-- ===== src/ServicesPage/Tests.antt =====
-- Runs of the services page, and its theorems at concrete services.
use Prim.Native.Nat.{Ordering}
use Prim.Native.String.{compare}
use pertisk_kube_app.Base.{String, ◌≡◌, refl, Option, some, none, List, [], ◌∷◌, ◌++◌, map}
use pertisk_kube_app.Display.{service_status, is_pending, has_external_address, is_headless}
use pertisk_kube_app.PodsPage.Table.{asc}
use pertisk_kube_app.PodsPage.Rows.{Collation}
use pertisk_kube_app.PodsPage.Page.{request_of}
use pertisk_kube_app.ServicesPage.{
  Service, service_key, sorted_services, ServicesPage, initial, services_label, listed, run,
}
use pertisk_kube_app.ServicesPage.Ordered.{IsGrouped, sorted_services-IsGrouped}
use pertisk_kube_app.ServicesPage.Gone.{failed_attempt, failure_keeps_gone}

abbrev bytewise : Collation
bytewise = record {
  locale_compare = compare;
  numeric_compare = compare;
  dates = compare;
  bytes = λ x y. Ordering.eq;
}

abbrev service : String → String → Option String → Service
service name kind external = record {
  name = name;
  namespace = "apps";
  row = record { service_type = kind; cluster_ip = some "10.0.0.9"; external_ip = external };
  ports = some "80";
  age = none;
}

abbrev services : List Service
services =
    service "inner" "ClusterIP" none
    ∷ service "waits" "LoadBalancer" none
    ∷ service "shown" "LoadBalancer" (some "192.0.2.1")
    ∷ []

waiting_first :
    map service_key
      (sorted_services bytewise [] "" (record { key = "status"; direction = asc }) services)
    ≡ "apps/waits" ∷ "apps/shown" ∷ "apps/inner" ∷ []
unfolding sorted_services service_status is_pending has_external_address is_headless
waiting_first = refl

sorted_services-IsGrouped_example :
    IsGrouped (sorted_services bytewise [] "" (record { key = "status"; direction = asc }) services)
sorted_services-IsGrouped_example = sorted_services-IsGrouped bytewise [] "" services

abbrev chosen : ServicesPage
chosen = record (initial [] "") {
  services = services;
  selected_rows = "apps/waits" ∷ "apps/inner" ∷ [];
}

-- Another user has deleted both services.
failure_keeps_gone_example :
    ((run bytewise (listed [] ∷ [] ++ failed_attempt) chosen).sent
      ≡ [] ++ map request_of chosen.selected_rows)
    × ((run bytewise (listed [] ∷ [] ++ failed_attempt) chosen).selected_rows
        ≡ chosen.selected_rows)
    × ((run bytewise (listed [] ∷ [] ++ failed_attempt) chosen).confirm
        ≡ some
            (record { keys = chosen.selected_rows; label = services_label chosen.selected_rows }))
failure_keeps_gone_example =
    failure_keeps_gone bytewise (listed [] ∷ []) chosen (refl, tt) refl refl
