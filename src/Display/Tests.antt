-- ===== src/Display/Tests.antt =====
-- Runs of the display functions, and their theorems at concrete values.
use pertisk_kube_app.Base.{◌≡◌, refl, true, none, some}
use pertisk_kube_app.Base.Json.{Json, undefined, decimal, str, arr, obj, nil, cons, end, field}
use pertisk_kube_app.Base.Objects.{own}
use pertisk_kube_app.Display.Merge.{merge_resource_status}
use pertisk_kube_app.Resources.Kind.{RawItem}
use pertisk_kube_app.Workloads.{JobObject}
use pertisk_kube_app.Display.{yellow, status_colour, compact_age, matches_filter, ServiceRow}

age_of_90061 : compact_age 90061 ≡ "1d1h"
unfolding compact_age decimal
age_of_90061 = refl

filters : matches_filter (some "Web-0") " web " ≡ true
unfolding matches_filter
filters = refl

init_error : status_colour "Init:Error" ≡ yellow
unfolding status_colour
init_error = refl

abbrev waiting_balancer : ServiceRow
waiting_balancer = record {
  service_type = "LoadBalancer";
  cluster_ip = some "10.0.0.1";
  external_ip = some "<pending>";
}

abbrev finished : RawItem JobObject
finished = record {
  namespace = some "apps";
  name = some "backup";
  deletion_timestamp = none;
  own_namespace = none;
  own_name = none;
  body = record {
    head = record { creation_timestamp = none; labels = undefined; annotations = undefined };
    completions = some 1;
    succeeded = some 1;
    failed = none;
    active = none;
  };
}

abbrev one_address : Json
one_address =
    obj (field "addresses" (arr (cons (str "10.0.0.7") nil)) (field "phase" (str "Ready") end))

-- An empty list of the item hides the manifest's addresses.
empty_addresses_win :
    own "addresses" (merge_resource_status one_address (obj (field "addresses" (arr nil) end)))
    ≡ some (arr nil)
unfolding merge_resource_status
empty_addresses_win = refl
