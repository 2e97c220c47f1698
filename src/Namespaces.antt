-- ===== src/Namespaces.antt =====
-- The namespaces and the name filter that the list pages share: frontend/src/context/NamespaceContext.tsx.
-- `stringify` stands for JSON.stringify on a list of texts, and `parse` for JSON.parse, with `none`
-- where it throws or gives another value than a list of texts.
pub mod Stored
mod Tests
use pertisk_kube_app.Base.{
  String, Bool, true, false, not, ◌&&◌, Option, none, some, List, [], ◌∷◌, ◌++◌, eqb, if◌then◌else◌,
  ◌==◌,
}
use pertisk_kube_app.Base.Lists.{length, filter, all}
use pertisk_kube_app.Base.Sets.{unique}
use pertisk_kube_app.Base.Text.{member}

-- The items of the local storage that the context uses, which are texts.
pub record Items : Type 0 where
  pub selected_namespaces : Option String
  pub available_namespaces : Option String
  pub resource_name_filter : Option String

pub record NamespaceContext : Type 0 where
  pub selected_namespaces : List String
  pub namespaces : List String
  pub is_loading : Bool
  pub resource_name_filter : String
  pub items : Items

-- stored ?? ''
abbrev pub stored_text : Option String → String
stored_text none = ""
stored_text (some s) = s

abbrev pub written_text : String → Option String
written_text s = if s == "" then none else some s

module _ (stringify : List String → String) where
  -- setItem with the JSON text, or removeItem for an empty list
  abbrev pub written_list : List String → Option String
  written_list [] = none
  written_list (n ∷ ns) = some (stringify (n ∷ ns))

  -- setSelectedNamespaces, and the effect on the selected namespaces, which writes the same
  unfoldable pub set_selected_namespaces : List String → NamespaceContext → NamespaceContext
  set_selected_namespaces ns p = record p {
    selected_namespaces = ns;
    items = record p.items { selected_namespaces = written_list ns };
  }

module _ (stringify : List String → String) (parse : String → Option (List String)) where
  -- stored ? JSON.parse(stored) : []
  unfoldable pub stored_list : Option String → Option (List String)
  stored_list none = some []
  stored_list (some text) = if text == "" then some [] else parse text

  abbrev pub mount_with : Items → List String → List String → NamespaceContext
  mount_with items chosen known = set_selected_namespaces stringify chosen (record {
    selected_namespaces = chosen;
    namespaces = known;
    is_loading = false;
    resource_name_filter = stored_text items.resource_name_filter;
    items = items;
  })

  abbrev pub mount_read :
      Items → Option (List String) → Option (List String) → Option NamespaceContext
  mount_read items (some chosen) (some known) = some (mount_with items chosen known)
  mount_read items none _ = none
  mount_read items (some chosen) none = none

  -- The state after the mount, its effect included; `none` where an item is not the JSON text of a
  -- list of texts: the provider throws, or goes on with a value of another type.
  unfoldable pub mount : Items → Option NamespaceContext
  unfolding set_selected_namespaces stored_list
  mount items =
      mount_read items (stored_list items.selected_namespaces)
        (stored_list items.available_namespaces)

-- setResourceNameFilter
unfoldable pub set_resource_name_filter : String → NamespaceContext → NamespaceContext
set_resource_name_filter value p = record p {
  resource_name_filter = value;
  items = record p.items { resource_name_filter = written_text value };
}

-- Whether two lists are the same as sets: equal sizes, and each item of the first in the second.
unfoldable pub same_set : List String → List String → Bool
unfolding unique
same_set prev next =
    eqb (length (unique prev)) (length (unique next))
    && all (λ n. member n (unique next)) (unique prev)

pub data Event : Type 0 where
  selected fetched : List String → Event
  toggled : String → Event
  cleared : Event
  filter_typed : String → Event
  loading : Bool → Event

module _ (stringify : List String → String) where
  -- setNamespaces
  unfoldable pub set_namespaces : List String → NamespaceContext → NamespaceContext
  unfolding same_set
  set_namespaces ns p = if same_set p.namespaces ns then p else record p {
    namespaces = ns;
    items = record p.items { available_namespaces = written_list stringify ns };
  }

  -- toggleNamespace
  unfoldable pub toggle_namespace : String → NamespaceContext → NamespaceContext
  unfolding set_selected_namespaces
  toggle_namespace n p =
      set_selected_namespaces stringify
        (if member n p.selected_namespaces
          then filter (λ m. not (m == n)) p.selected_namespaces
          else p.selected_namespaces ++ n ∷ [])
        p

  unfoldable pub step : Event → NamespaceContext → NamespaceContext
  unfolding set_selected_namespaces set_namespaces toggle_namespace set_resource_name_filter
  step (selected ns) p = set_selected_namespaces stringify ns p
  step (fetched ns) p = set_namespaces ns p
  step (toggled n) p = toggle_namespace n p
  step cleared p = set_selected_namespaces stringify [] p
  step (filter_typed value) p = set_resource_name_filter value p
  step (loading b) p = record p { is_loading = b }

  unfoldable pub run : List Event → NamespaceContext → NamespaceContext
  run [] p = p
  run (e ∷ es) p = run es (step e p)
