-- ===== src/PodsPage/Rows.antt =====
-- The rows of the pods page: `sortedPods` of frontend/src/pages/PodsPage.tsx.
use Prim.Native.Nat.{compare, Ordering}
use pertisk_kube_app.Base.{
  ℕ, String, Bool, true, false, some, ◌&&◌, ◌||◌, List, [], ◌∷◌, if◌then◌else◌, ◌==◌,
}
use pertisk_kube_app.Base.Json.{Json, num, str, or_else}
use pertisk_kube_app.Base.Lists.{filter}
use pertisk_kube_app.Base.Text.{member}
use pertisk_kube_app.Display.{matches_filter}
use pertisk_kube_app.Pods.Row.{Pod}
use pertisk_kube_app.PodsPage.Table.{SortState, is_asc}

-- What the comparison takes from the host: localeCompare, plain and with its numeric option, the
-- instants that Date.parse reads, and the byte counts of quantities, which are floating-point numbers.
pub record Collation : Type 0 where
  pub locale_compare : String → String → Ordering
  pub numeric_compare : String → String → Ordering
  pub dates : String → String → Ordering
  pub bytes : Json → Json → Ordering

-- x || '', for a field that is a text or missing
abbrev pub field_text : Json → String
field_text (str s) = s
field_text _ = ""

-- restarts ?? 0
abbrev pub field_number : Json → ℕ
field_number (num n) = n
field_number _ = 0

abbrev pub reverse_order : Ordering → Ordering
reverse_order Ordering.lt = Ordering.gt
reverse_order Ordering.eq = Ordering.eq
reverse_order Ordering.gt = Ordering.lt

abbrev pub status_field : Pod → String
status_field p = field_text (or_else p.display_status (or_else p.status p.phase))

module _ (c : Collation) where
  -- The comparison of two rows by a sort key, without its factor.
  unfoldable pub compare_by : String → Pod → Pod → Ordering
  compare_by key first second =
      let by : Json → Json → Ordering = λ x y. c.locale_compare (field_text x) (field_text y) in
      if key == "name"
      then c.locale_compare first.name second.name
      else if key == "namespace"
      then c.locale_compare first.namespace second.namespace
      else if key == "node"
      then by first.node second.node
      else if key == "status"
      then c.locale_compare (status_field first) (status_field second)
      else if key == "ready"
      then by first.ready second.ready
      else if key == "restarts"
      then compare (field_number first.restarts) (field_number second.restarts)
      else if key == "cpu"
      then c.numeric_compare (field_text first.cpu) (field_text second.cpu)
      else if key == "memory"
      then c.bytes first.memory second.memory
      else if key == "controlled_by"
      then by first.controlled_by second.controlled_by
      else if key == "qos"
      then by first.qos second.qos
      else if key == "age"
      then c.dates (field_text first.age) (field_text second.age)
      else Ordering.eq

  unfoldable pub compare_rows : SortState → Pod → Pod → Ordering
  unfolding compare_by
  compare_rows s first second =
      let o = compare_by s.key first second in if is_asc s.direction then o else reverse_order o

abbrev pub is_after : Ordering → Bool
is_after Ordering.gt = true
is_after _ = false

-- xs.sort(compare), a stable sort
unfoldable pub insert_row {ℓ} : {A : Type ℓ} → (A → A → Ordering) → A → List A → List A
insert_row order p [] = p ∷ []
insert_row order p (q ∷ qs) =
    let rest = insert_row order p qs in if is_after (order p q) then q ∷ rest else p ∷ q ∷ qs

unfoldable pub sort_rows {ℓ} : {A : Type ℓ} → (A → A → Ordering) → List A → List A
unfolding insert_row
sort_rows order [] = []
sort_rows order (p ∷ ps) = insert_row order p (sort_rows order ps)

abbrev pub no_texts : List String → Bool
no_texts [] = true
no_texts (_ ∷ _) = false

-- The two filters: the namespaces, if any is selected, and the name.
unfoldable pub passes : List String → String → Pod → Bool
unfolding matches_filter
passes namespaces text p =
    (no_texts namespaces || member p.namespace namespaces) && matches_filter (some p.name) text

unfoldable pub sorted_pods : Collation → List String → String → SortState → List Pod → List Pod
unfolding compare_rows sort_rows passes
sorted_pods c namespaces text s pods =
    sort_rows (compare_rows c s) (filter (passes namespaces text) pods)
