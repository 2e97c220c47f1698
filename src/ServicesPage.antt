-- ===== src/ServicesPage.antt =====
-- The list page of services: its rows, its selection and the deletion of services.
-- frontend/src/pages/ServicesPage.tsx. A key is read, and a request made of it, as on the page of pods.
pub mod Ordered
pub mod Gone
mod Tests
use Prim.Native.Nat.{compare, Ordering}
use pertisk_kube_app.Base.{
  ℕ, String, Bool, true, false, not, ◌&&◌, ◌||◌, Option, none, some, List, [], ◌∷◌, ◌++◌, map,
  if◌then◌else◌, ◌==◌,
}
use pertisk_kube_app.Base.Json.{decimal}
use pertisk_kube_app.Base.Lists.{length, filter, find}
use pertisk_kube_app.Base.Text.{◌<>◌, member, split}
use pertisk_kube_app.Display.{ServiceRow, matches_filter, service_status_rank, external_ip_display}
use pertisk_kube_app.Pods.Raw.{or_text}
use pertisk_kube_app.PodsPage.Table.{SortState, desc, is_asc, next_sort, click_all, click_row}
use pertisk_kube_app.PodsPage.Rows.{Collation, reverse_order, sort_rows, no_texts}
use pertisk_kube_app.PodsPage.Page.{ConfirmDelete, Request, second_part, request_of}

pub record Service : Type 0 where
  pub name : String
  pub namespace : String
  pub row : ServiceRow
  pub ports : Option String
  pub age : Option String

-- getKey
abbrev pub service_key : Service → String
service_key s = s.namespace <> "/" <> s.name

abbrev pub then_by : Ordering → Ordering → Ordering
then_by Ordering.eq o = o
then_by o _ = o

module _ (c : Collation) where
  -- The comparison of two services by a sort key, without its factor.
  unfoldable pub compare_services_by : String → Service → Service → Ordering
  unfolding service_status_rank external_ip_display
  compare_services_by key a b =
      if key == "name"
      then c.locale_compare a.name b.name
      else if key == "namespace"
      then c.locale_compare a.namespace b.namespace
      else if key == "status"
      then then_by (compare (service_status_rank a.row) (service_status_rank b.row))
          (c.locale_compare a.name b.name)
      else if key == "service_type"
      then c.locale_compare a.row.service_type b.row.service_type
      else if key == "cluster_ip"
      then c.locale_compare (or_text a.row.cluster_ip "") (or_text b.row.cluster_ip "")
      else if key == "external_ip"
      then c.locale_compare (external_ip_display a.row) (external_ip_display b.row)
      else if key == "ports"
      then c.locale_compare (or_text a.ports "") (or_text b.ports "")
      else c.dates (or_text a.age "") (or_text b.age "")

  unfoldable pub compare_services : SortState → Service → Service → Ordering
  unfolding compare_services_by
  compare_services s a b =
      let o = compare_services_by s.key a b in if is_asc s.direction then o else reverse_order o

unfoldable pub passes_filters : List String → String → Service → Bool
unfolding matches_filter
passes_filters namespaces text s =
    (no_texts namespaces || member s.namespace namespaces) && matches_filter (some s.name) text

-- sortedData
unfoldable pub sorted_services :
    Collation → List String → String → SortState → List Service → List Service
unfolding compare_services sort_rows passes_filters
sorted_services c namespaces text s services =
    sort_rows (compare_services c s) (filter (passes_filters namespaces text) services)

pub record ServicesPage : Type 0 where
  pub services : List Service
  pub namespaces : List String
  pub name_filter : String
  pub sort_state : SortState
  pub selected_rows : List String
  pub selected_item : Option Service
  pub panel_open : Bool
  pub confirm : Option ConfirmDelete
  pub deleting : Bool
  pub sent : List Request

abbrev pub initial : List String → String → ServicesPage
initial namespaces name_filter = record {
  services = [];
  namespaces = namespaces;
  name_filter = name_filter;
  sort_state = record { key = "age"; direction = desc };
  selected_rows = [];
  selected_item = none;
  panel_open = false;
  confirm = none;
  deleting = false;
  sent = [];
}

unfoldable pub shown_services : Collation → ServicesPage → List Service
unfolding sorted_services
shown_services c p = sorted_services c p.namespaces p.name_filter p.sort_state p.services

abbrev pub services_label : List String → Option String
services_label (key ∷ []) = second_part (split 0x2F key)
services_label selected = some (decimal (length selected) <> " services")

-- handleDeleteSelected
unfoldable pub delete_services : ServicesPage → ServicesPage
unfolding split
delete_services p = if no_texts p.selected_rows then p else record p {
  confirm = some (record { keys = p.selected_rows; label = services_label p.selected_rows });
}

-- handleDeleteSingle, from the open panel
unfoldable pub delete_service : ServicesPage → ServicesPage
delete_service p = elim p.selected_item [
  | none ↦ p
  | some s ↦
      if p.panel_open
      then record p {
        confirm = some (record { keys = service_key s ∷ []; label = some s.name });
        panel_open = false;
      }
      else p
]

-- handleConfirmDelete up to its requests
unfoldable pub start_requests : ServicesPage → ServicesPage
unfolding request_of
start_requests p = elim p.confirm [
  | none ↦ p
  | some asked ↦
      if p.deleting
      then p
      else record p { deleting = true; sent = p.sent ++ map request_of asked.keys }
]

-- The rest of handleConfirmDelete, once all its requests have succeeded, or once one has failed.
unfoldable pub end_requests : Bool → ServicesPage → ServicesPage
end_requests good p =
    if not p.deleting
    then p
    else if good
    then record p { selected_rows = []; confirm = none; deleting = false }
    else record p { deleting = false }

pub data Event : Type 0 where
  listed : List Service → Event
  namespaces_chosen : List String → Event
  name_typed header_clicked : String → Event
  all_clicked clear_clicked : Event
  box_clicked row_clicked : String → Event
  panel_closed panel_delete_clicked delete_clicked : Event
  cancel_clicked backdrop_clicked confirm_clicked : Event
  deletion_ended : Bool → Event

unfoldable pub step : Collation → Event → ServicesPage → ServicesPage
unfolding next_sort click_all click_row shown_services delete_services delete_service start_requests
    end_requests
step c (listed services) p = record p { services = services }
step c (namespaces_chosen namespaces) p = record p { namespaces = namespaces }
step c (name_typed text) p = record p { name_filter = text }
step c (header_clicked key) p = record p { sort_state = next_sort key p.sort_state }
step c all_clicked p = record p {
  selected_rows = click_all (map service_key (shown_services c p)) p.selected_rows;
}
step c clear_clicked p = record p { selected_rows = [] }
step c (box_clicked key) p =
    if member key (map service_key (shown_services c p))
    then record p { selected_rows = click_row key p.selected_rows }
    else p
step c (row_clicked key) p = elim (find (λ s. service_key s == key) (shown_services c p)) [
  | none ↦ p
  | some s ↦ record p { selected_item = some s; panel_open = true }
]
step c panel_closed p = record p { panel_open = false }
step c panel_delete_clicked p = delete_service p
step c delete_clicked p = delete_services p
step c cancel_clicked p = if p.deleting then p else record p { confirm = none }
step c backdrop_clicked p = record p { confirm = none }
step c confirm_clicked p = start_requests p
step c (deletion_ended good) p = end_requests good p

unfoldable pub run : Collation → List Event → ServicesPage → ServicesPage
run c [] p = p
run c (e ∷ es) p = run c es (step c e p)
