-- ===== src/PodsPage/Checked.antt =====
-- When the box of the table's header is checked.
use pertisk_kube_app.Base.{String, ◌≡◌, false, ◌&&◌, inl, inr, List, ltb, eqb, arith, Bool-cases}
use pertisk_kube_app.Base.Lists.{length, all}
use pertisk_kube_app.Base.Text.{member}
use pertisk_kube_app.Base.Distinct.{Distinct, length-le_of_subset}
use pertisk_kube_app.Base.Sets.{Within, all-of_Within, Within-of_all, Within-of_length}
use pertisk_kube_app.PodsPage.Table.{all_selected}
use pertisk_kube_app.PodsPage.Rows.{Collation}
use pertisk_kube_app.PodsPage.Page.{PodsPage, shown_keys}
use pertisk_kube_app.PodsPage.Listed.{IsListed, shown_keys-Distinct}

all_selected-of_lists :
    (rows selected : List String)
    → Distinct rows
    → Distinct selected
    → Within selected rows
    → all_selected rows selected ≡ (ltb 0 (length rows) && all (λ k. member k selected) rows)
unfolding all_selected
all_selected-of_lists rows selected dr ds w =
    elim (Bool-cases (all (λ k. member k selected) rows)) [
      | inl e ↦
          let more = length-le_of_subset rows selected dr (Within-of_all rows selected e) in
          let fewer = length-le_of_subset selected rows ds w in ground (arith, more, fewer, e)
      | inr e ↦
          let apart : eqb (length selected) (length rows) ≡ false =
            elim (Bool-cases (eqb (length selected) (length rows))) [
              | inl same ↦
                  let every =
                    all-of_Within rows selected
                      (Within-of_length selected rows ds w (ground arith)) in
                  cc
              | inr other ↦ other
            ] in
          ground (arith, apart, e)
    ]

-- On a page with a sound selection whose selected rows are all shown, the box of the header is checked just
-- where there are rows and each of them is selected.
pub all_selected-Every :
    (c : Collation) (p : PodsPage)
    → IsListed p
    → Within p.selected_rows (shown_keys c p)
    → all_selected (shown_keys c p) p.selected_rows
      ≡ (ltb 0 (length (shown_keys c p)) && all (λ k. member k p.selected_rows) (shown_keys c p))
all_selected-Every c p h w =
    all_selected-of_lists (shown_keys c p) p.selected_rows (shown_keys-Distinct c p h)
      h.selected_distinct w
