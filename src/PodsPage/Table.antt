-- ===== src/PodsPage/Table.antt =====
-- The handlers of a table: frontend/src/components/DataTable.tsx. A handler's result is the selection that
-- it passes to onRowSelectionChange, or the sort state that it passes to onSortChange.
use pertisk_kube_app.Base.{
  String, Bool, true, false, not, ◌&&◌, List, [], ◌∷◌, ◌++◌, ltb, eqb, if◌then◌else◌, ◌==◌,
}
use pertisk_kube_app.Base.Lists.{length, filter}
use pertisk_kube_app.Base.Text.{member}

pub data SortDirection : Type 0 where
  asc desc : SortDirection

pub record SortState : Type 0 where
  pub key : String
  pub direction : SortDirection

abbrev pub is_asc : SortDirection → Bool
is_asc asc = true
is_asc desc = false

-- The sort state that a click on the header of `sort_key` asks for.
unfoldable pub next_sort : String → SortState → SortState
next_sort sort_key s = record {
  key = sort_key;
  direction = if s.key == sort_key && is_asc s.direction then desc else asc;
}

-- handleSelectAll, where `rows` are the keys of the table's rows
unfoldable pub select_all : List String → Bool → List String
select_all rows checked = if checked then rows else []

-- handleRowSelect
unfoldable pub select_row : String → Bool → List String → List String
select_row row checked selected =
    if checked then selected ++ row ∷ [] else filter (λ k. not (k == row)) selected

-- allSelected, in a table with row selection
unfoldable pub all_selected : (rows selected : List String) → Bool
all_selected rows selected = ltb 0 (length rows) && eqb (length selected) (length rows)

-- someSelected
unfoldable pub some_selected : (rows selected : List String) → Bool
some_selected rows selected = ltb 0 (length selected) && ltb (length selected) (length rows)

-- A click on a checkbox asks for the opposite of what the checkbox shows.
unfoldable pub click_all : (rows selected : List String) → List String
unfolding select_all all_selected
click_all rows selected = select_all rows (not (all_selected rows selected))

unfoldable pub click_row : String → List String → List String
unfolding select_row
click_row row selected = select_row row (not (member row selected)) selected
