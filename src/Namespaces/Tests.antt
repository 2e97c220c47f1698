-- ===== src/Namespaces/Tests.antt =====
-- Runs of the shared namespaces, and their theorems at concrete storage. A list is written as a text that
-- marks each character and each end of a text.
use Prim.Native.Char.{Char, code}
use pertisk_kube_app.Base.{
  String, ◌≡◌, refl, ap, ◌∙◌, Bool, true, false, Option, none, some, List, [], ◌∷◌, eqb,
}
use pertisk_kube_app.Base.Text.{member}
use pertisk_kube_app.Namespaces.{
  Items, NamespaceContext, mount, Event, fetched, toggled, filter_typed, loading, step, run,
  set_selected_namespaces, stored_list,
}
use pertisk_kube_app.Namespaces.Stored.{mount-run, fetched_are_known}

abbrev write_text : String → String → String
write_text String.[] rest = String.◌∷◌ "." rest
write_text (String.◌∷◌ c s) rest = String.◌∷◌ "x" (String.◌∷◌ c (write_text s rest))

abbrev write_texts : List String → String
write_texts [] = ""
write_texts (s ∷ ss) = write_text s (write_texts ss)

abbrev write_list : List String → String
write_list ss = String.◌∷◌ "[" (write_texts ss)

abbrev push : Char → List String → List String
push c [] = []
push c (s ∷ ss) = String.◌∷◌ c s ∷ ss

abbrev read_texts : String → List String
read_texts String.[] = []
read_texts (String.◌∷◌ mark String.[]) = "" ∷ []
read_texts (String.◌∷◌ mark (String.◌∷◌ c s)) = elim (eqb (code mark) 120) [
  | true ↦ push c (read_texts s)
  | false ↦ "" ∷ read_texts (String.◌∷◌ c s)
]

abbrev read_list : String → Option (List String)
read_list String.[] = none
read_list (String.◌∷◌ bracket s) = some (read_texts s)

abbrev is_blank : String → Bool
is_blank String.[] = true
is_blank (String.◌∷◌ c s) = false

read-write_text : (s rest : String) → read_texts (write_text s rest) ≡ s ∷ read_texts rest
read-write_text String.[] String.[] = refl
read-write_text String.[] (String.◌∷◌ c rest) = refl
read-write_text (String.◌∷◌ c s) rest = ap (push c) (read-write_text s rest)

read-write_texts : (ss : List String) → read_texts (write_texts ss) ≡ ss
read-write_texts [] = refl
read-write_texts (s ∷ ss) =
    read-write_text s (write_texts ss) ∙ ap (λ l. s ∷ l) (read-write_texts ss)

abbrev kept : Items
kept = record {
  selected_namespaces = none;
  available_namespaces = some (write_list ("apps" ∷ "jobs" ∷ []));
  resource_name_filter = none;
}

abbrev mounted : NamespaceContext
mounted = record {
  selected_namespaces = [];
  namespaces = "apps" ∷ "jobs" ∷ [];
  is_loading = false;
  resource_name_filter = "";
  items = kept;
}

abbrev session : List Event
session =
    loading true
    ∷ fetched ("jobs" ∷ "apps" ∷ [])
    ∷ toggled "apps"
    ∷ toggled "jobs"
    ∷ toggled "apps"
    ∷ filter_typed "web"
    ∷ []

toggled_twice : (run write_list session mounted).selected_namespaces ≡ "jobs" ∷ []
unfolding run step
toggled_twice = refl

mount-run_example :
    let q = run write_list session mounted in
    (r : NamespaceContext) × (mount write_list read_list q.items ≡ some r)
    × (r.selected_namespaces ≡ q.selected_namespaces)
    × (r.namespaces ≡ q.namespaces)
    × (r.resource_name_filter ≡ q.resource_name_filter)
unfolding mount set_selected_namespaces stored_list
mount-run_example =
    mount-run write_list read_list (λ ns blank. let lie = ap is_blank blank in cc)
      (λ ns. ap some (read-write_texts ns)) kept session mounted refl

fetched_are_known_example :
    member "jobs" (step write_list (fetched ("jobs" ∷ "apps" ∷ [])) mounted).namespaces
    ≡ member "jobs" ("jobs" ∷ "apps" ∷ [])
fetched_are_known_example = fetched_are_known write_list ("jobs" ∷ "apps" ∷ []) mounted "jobs"
