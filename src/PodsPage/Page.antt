-- ===== src/PodsPage/Page.antt =====
-- The state and the handlers of PodsPage in frontend/src/pages/PodsPage.tsx. `sent` holds the DELETE requests
-- that the page has sent; their answers are the event `deletion_ended`.
use pertisk_kube_app.Base.{
  String, Bool, true, false, not, Option, none, some, List, [], ◌∷◌, ◌++◌, map, if◌then◌else◌, ◌==◌,
}
use pertisk_kube_app.Base.Json.{decimal}
use pertisk_kube_app.Base.Lists.{length, filter, find}
use pertisk_kube_app.Base.Text.{◌<>◌, member, split}
use pertisk_kube_app.Pods.Row.{Pod, key_of, same_pod}
use pertisk_kube_app.Pods.Sync.{keys}
use pertisk_kube_app.PodsPage.Table.{SortState, desc, next_sort, click_all, click_row}
use pertisk_kube_app.PodsPage.Rows.{Collation, no_texts, sorted_pods}

-- The dialog that asks for a confirmation.
pub record ConfirmDelete : Type 0 where
  pub keys : List String
  pub label : Option String

-- The arguments of deletePod.
pub record Request : Type 0 where
  pub namespace : String
  pub name : String

pub record PodsPage : Type 0 where
  pub pods : List Pod
  pub namespaces : List String
  pub name_filter : String
  pub sort_state : SortState
  pub selected_rows : List String
  pub selected_pod : Option Pod
  pub panel_open : Bool
  pub confirm : Option ConfirmDelete
  pub deleting : Bool
  pub sent : List Request

abbrev pub initial : List String → String → PodsPage
initial namespaces name_filter = record {
  pods = [];
  namespaces = namespaces;
  name_filter = name_filter;
  sort_state = record { key = "age"; direction = desc };
  selected_rows = [];
  selected_pod = none;
  panel_open = false;
  confirm = none;
  deleting = false;
  sent = [];
}

-- The keys of the table's rows, in their order.
unfoldable pub shown_keys : Collation → PodsPage → List String
unfolding sorted_pods
shown_keys c p = keys (sorted_pods c p.namespaces p.name_filter p.sort_state p.pods)

-- The effect on the list and the panel's pod.
abbrev pub follow : List Pod → Option Pod → Option Pod
follow rows none = none
follow rows (some pod) = find (same_pod pod) rows

-- The effect on the list that drops selected rows.
abbrev pub drop_gone : List Pod → List String → List String
drop_gone [] selected = []
drop_gone (r ∷ rows) selected = filter (λ k. member k (keys (r ∷ rows))) selected

unfoldable pub on_data : List Pod → PodsPage → PodsPage
on_data rows p = record p {
  pods = rows;
  selected_rows = drop_gone rows p.selected_rows;
  selected_pod = follow rows p.selected_pod;
}

-- A missing part of a key is `undefined`.
abbrev pub second_part : List String → Option String
second_part (_ ∷ name ∷ _) = some name
second_part _ = none

abbrev pub dialog_label : List String → Option String
dialog_label (key ∷ []) = second_part (split 0x2F key)
dialog_label selected = some (decimal (length selected) <> " pods")

-- handleDeleteSelected
unfoldable pub delete_selected : PodsPage → PodsPage
unfolding split
delete_selected p = if no_texts p.selected_rows then p else record p {
  confirm = some (record { keys = p.selected_rows; label = dialog_label p.selected_rows });
}

-- handleDeleteSingle, from the open panel
unfoldable pub delete_single : PodsPage → PodsPage
delete_single p = elim p.selected_pod [
  | none ↦ p
  | some pod ↦
      if p.panel_open
      then record p {
        confirm = some (record { keys = key_of pod ∷ []; label = some pod.name });
        panel_open = false;
      }
      else p
]

abbrev pub request_of_parts : List String → Request
request_of_parts [] = record { namespace = "undefined"; name = "undefined" }
request_of_parts (namespace ∷ []) = record { namespace = namespace; name = "undefined" }
request_of_parts (namespace ∷ name ∷ _) = record { namespace = namespace; name = name }

-- The request that handleConfirmDelete sends for a key.
unfoldable pub request_of : String → Request
unfolding split
request_of key = request_of_parts (split 0x2F key)

-- handleConfirmDelete up to its requests; the dialog's button is disabled while a deletion runs.
unfoldable pub start_delete : PodsPage → PodsPage
unfolding request_of
start_delete p = elim p.confirm [
  | none ↦ p
  | some asked ↦
      if p.deleting
      then p
      else record p { deleting = true; sent = p.sent ++ map request_of asked.keys }
]

-- What handleConfirmDelete does once all its requests have succeeded, or once one has failed.
unfoldable pub end_delete : Bool → PodsPage → PodsPage
end_delete good p =
    if not p.deleting
    then p
    else if good
    then record p { selected_rows = []; confirm = none; deleting = false }
    else record p { deleting = false }

pub data Event : Type 0 where
  listed : List Pod → Event
  namespaces_chosen : List String → Event
  name_typed header_clicked : String → Event
  all_clicked clear_clicked : Event
  box_clicked row_clicked : String → Event
  panel_closed panel_delete_clicked delete_clicked : Event
  cancel_clicked backdrop_clicked confirm_clicked : Event
  deletion_ended : Bool → Event

unfoldable pub step : Collation → Event → PodsPage → PodsPage
unfolding next_sort click_all click_row shown_keys on_data delete_selected delete_single
    start_delete end_delete
step c (listed rows) p = on_data rows p
step c (namespaces_chosen namespaces) p = record p { namespaces = namespaces }
step c (name_typed text) p = record p { name_filter = text }
step c (header_clicked key) p = record p { sort_state = next_sort key p.sort_state }
step c all_clicked p = record p { selected_rows = click_all (shown_keys c p) p.selected_rows }
step c clear_clicked p = record p { selected_rows = [] }
step c (box_clicked key) p =
    if member key (shown_keys c p)
    then record p { selected_rows = click_row key p.selected_rows }
    else p
step c (row_clicked key) p =
    elim (find (λ r. key_of r == key)
      (sorted_pods c p.namespaces p.name_filter p.sort_state p.pods)) [
        | none ↦ p
        | some pod ↦ record p { selected_pod = follow p.pods (some pod); panel_open = true }
      ]
step c panel_closed p = record p { panel_open = false }
step c panel_delete_clicked p = delete_single p
step c delete_clicked p = delete_selected p
step c cancel_clicked p = if p.deleting then p else record p { confirm = none }
step c backdrop_clicked p = record p { confirm = none }
step c confirm_clicked p = start_delete p
step c (deletion_ended good) p = end_delete good p

unfoldable pub run : Collation → List Event → PodsPage → PodsPage
run c [] p = p
run c (e ∷ es) p = run c es (step c e p)
