-- ===== src/PodsPage/Shown.antt =====
-- Which pods the rows of the page show.
use pertisk_kube_app.Base.{
  String, ◌≡◌, refl, sym, ap, ◌∙◌, Bool, true, false, ◌&&◌, ◌||◌, inl, inr, some, List, [], ◌∷◌,
  ◌==◌, arith, Bool-cases,
}
use Prim.Native.Nat.{Ordering}
use pertisk_kube_app.Base.Lists.{filter, any}
use pertisk_kube_app.Base.Text.{member}
use pertisk_kube_app.Base.Distinct.{Distinct, eq_comm}
use pertisk_kube_app.Display.{matches_filter}
use pertisk_kube_app.Pods.Row.{Pod, key_of}
use pertisk_kube_app.Pods.Sync.{keys}
use pertisk_kube_app.PodsPage.Table.{SortState}
use pertisk_kube_app.PodsPage.Rows.{
  Collation, compare_rows, is_after, insert_row, sort_rows, no_texts, passes, sorted_pods,
}

module _ (order : Pod → Pod → Ordering) where
  any-insert_row :
      (q : Pod → Bool) (p : Pod) (ps : List Pod) → any q (insert_row order p ps) ≡ (q p || any q ps)
  unfolding insert_row
  any-insert_row q p [] = refl
  any-insert_row q p (r ∷ rs) = elim (Bool-cases (is_after (order p r))) [
    | inl e ↦ rw (e, insert_row) (ground (arith, any-insert_row q p rs))
    | inr e ↦ rw (e, insert_row) refl
  ]

  any-sort_rows : (q : Pod → Bool) (ps : List Pod) → any q (sort_rows order ps) ≡ any q ps
  unfolding sort_rows
  any-sort_rows q [] = refl
  any-sort_rows q (p ∷ ps) =
      any-insert_row q p (sort_rows order ps) ∙ ap (λ b. q p || b) (any-sort_rows q ps)

any-filter_and : (q f : Pod → Bool) (ps : List Pod) → any q (filter f ps) ≡ any (λ p. f p && q p) ps
any-filter_and q f [] = refl
any-filter_and q f (p ∷ ps) = ground (arith, any-filter_and q f ps)

-- Rows of any kind are shown just where listed pods of that kind pass the filters of the page.
pub any-sorted_pods :
    (c : Collation) (namespaces : List String) (text : String) (s : SortState) (q : Pod → Bool)
    (pods : List Pod)
    → any q (sorted_pods c namespaces text s pods) ≡ any (λ p. passes namespaces text p && q p) pods
unfolding sorted_pods
any-sorted_pods c namespaces text s q pods =
    any-sort_rows (compare_rows c s) q (filter (passes namespaces text) pods)
    ∙ any-filter_and q (passes namespaces text) pods

pub member-keys : (k : String) (ps : List Pod) → member k (keys ps) ≡ any (λ p. key_of p == k) ps
member-keys k [] = refl
member-keys k (p ∷ ps) = ap (λ b. key_of p == k || b) (member-keys k ps)

any-and-le : (f q : Pod → Bool) (ps : List Pod) → any (λ p. f p && q p) ps ≡ true → any q ps ≡ true
any-and-le f q [] h = cc
any-and-le f q (p ∷ ps) h = ground (arith, any-and-le f q ps)

-- A key that is shown is listed.
pub shown-listed :
    (c : Collation) (namespaces : List String) (text : String) (s : SortState) (k : String)
    (pods : List Pod)
    → member k (keys (sorted_pods c namespaces text s pods)) ≡ true
    → member k (keys pods) ≡ true
shown-listed c namespaces text s k pods h =
    let q : Pod → Bool = λ p. key_of p == k in
    member-keys k pods
    ∙ any-and-le (passes namespaces text) q pods (
        sym (any-sorted_pods c namespaces text s q pods)
        ∙ sym (member-keys k (sorted_pods c namespaces text s pods))
        ∙ h)

Distinct-filter :
    (f : Pod → Bool) (ps : List Pod) → Distinct (keys ps) → Distinct (keys (filter f ps))
Distinct-filter f [] d = d
Distinct-filter f (p ∷ ps) (fresh, d) = elim (Bool-cases (f p)) [
  | inl e ↦ rw e (absent, Distinct-filter f ps d)
  | inr e ↦ rw e (Distinct-filter f ps d)
]
  where
    any-false :
        (q g : Pod → Bool) (rs : List Pod) → any q rs ≡ false → any (λ r. g r && q r) rs ≡ false
    any-false q g [] h = refl
    any-false q g (r ∷ rs) h = ground (arith, any-false q g rs)

    absent : member (key_of p) (keys (filter f ps)) ≡ false
    absent =
        member-keys (key_of p) (filter f ps)
        ∙ any-filter_and (λ r. key_of r == key_of p) f ps
        ∙ any-false (λ r. key_of r == key_of p) f ps (sym (member-keys (key_of p) ps) ∙ fresh)

module _ (order : Pod → Pod → Ordering) where
  Distinct-insert_row :
      (p : Pod) (ps : List Pod)
      → member (key_of p) (keys ps) ≡ false
      → Distinct (keys ps)
      → Distinct (keys (insert_row order p ps))
  unfolding insert_row
  Distinct-insert_row p [] fresh d = (refl, tt)
  Distinct-insert_row p (r ∷ rs) fresh (fresh_r, d) = elim (Bool-cases (is_after (order p r))) [
    | inl e ↦
        rw (e, insert_row)
          (
            member-keys (key_of r) (insert_row order p rs)
                ∙ any-insert_row order (λ x. key_of x == key_of r) p rs
                ∙ ap (λ b. key_of p == key_of r || b) (sym (member-keys (key_of r) rs))
                ∙ ground (arith, eq_comm (key_of p) (key_of r)),
            Distinct-insert_row p rs (ground arith) d,
          )
    | inr e ↦ rw (e, insert_row) (fresh, (fresh_r, d))
  ]

  Distinct-sort_rows : (ps : List Pod) → Distinct (keys ps) → Distinct (keys (sort_rows order ps))
  unfolding sort_rows
  Distinct-sort_rows [] d = d
  Distinct-sort_rows (p ∷ ps) (fresh, d) =
      Distinct-insert_row p (sort_rows order ps)
        (member-keys (key_of p) (sort_rows order ps)
          ∙ any-sort_rows order (λ x. key_of x == key_of p) ps
          ∙ sym (member-keys (key_of p) ps)
          ∙ fresh)
        (Distinct-sort_rows ps d)

-- The table shows no key twice where the list names none twice.
pub shown-Distinct :
    (c : Collation) (namespaces : List String) (text : String) (s : SortState) (pods : List Pod)
    → Distinct (keys pods)
    → Distinct (keys (sorted_pods c namespaces text s pods))
unfolding sorted_pods
shown-Distinct c namespaces text s pods d =
    Distinct-sort_rows (compare_rows c s) (filter (passes namespaces text) pods)
      (Distinct-filter (passes namespaces text) pods d)

-- Whatever the order of the rows, a row with a key is shown just where a listed pod of that key is in a
-- selected namespace, or no namespace is selected, and has a name that the name filter matches; and where
-- the list names no pod twice, no key is shown twice.
pub sorted_pods-Shows :
    (c : Collation) (namespaces : List String) (text : String) (s : SortState) (pods : List Pod)
    → Distinct (keys pods)
    → ((k : String)
        → member k (keys (sorted_pods c namespaces text s pods))
          ≡ any
              (λ p.
                ((no_texts namespaces || member p.namespace namespaces)
                  && matches_filter (some p.name) text)
                && key_of p == k)
              pods)
      × Distinct (keys (sorted_pods c namespaces text s pods))
unfolding passes
sorted_pods-Shows c namespaces text s pods d = (
  λ k.
      member-keys k (sorted_pods c namespaces text s pods)
      ∙ any-sorted_pods c namespaces text s (λ p. key_of p == k) pods,
  shown-Distinct c namespaces text s pods d,
)
