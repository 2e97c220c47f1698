-- ===== src/NodeRoles/Compare.antt =====
-- The comparison of two nodes by their roles is consistent.
use pertisk_kube_app.Base.{String, ◌≡◌, refl, List, [], ◌∷◌, arith}
use pertisk_kube_app.NodeRoles.{
  Order, before, same, after, compare_labels, sort_roles, compare_sorted, compare_roles, or_worker,
}

abbrev pub flip : Order → Order
flip before = after
flip same = same
flip after = before

module _ (locale : String → String → Order)
    (turns : (a b : String) → locale b a ≡ flip (locale a b)) where
  compare_labels-flip :
      (a b : String) → compare_labels locale b a ≡ flip (compare_labels locale a b)
  unfolding compare_labels
  compare_labels-flip a b = ground (arith, turns a b)

  compare_sorted-flip :
      (rs ss : List String) → compare_sorted locale ss rs ≡ flip (compare_sorted locale rs ss)
  unfolding compare_sorted
  compare_sorted-flip [] [] = refl
  compare_sorted-flip [] (s ∷ ss) = refl
  compare_sorted-flip (r ∷ rs) [] = refl
  compare_sorted-flip (r ∷ rs) (s ∷ ss) =
      step (compare_labels locale r s) (compare_labels locale s r) (compare_labels-flip r s)
        (compare_sorted locale rs ss) (compare_sorted locale ss rs) (compare_sorted-flip rs ss)
    where
      step :
          (o p : Order)
          → p ≡ flip o
          → (q q' : Order) → q' ≡ flip q
          → (elim p [ same ↦ q' | before ↦ before | after ↦ after ])
            ≡ flip (elim o [ same ↦ q | before ↦ before | after ↦ after ])
      step before p e q q' f = rw e
      step same p e q q' f = rw e f
      step after p e q q' f = rw e

-- Where the order of texts turns with its arguments, so does the order of nodes by their roles; a node
-- without roles counts as a worker.
compare_roles-flip :
    (locale : String → String → Order) (first second : List String)
    → ((a b : String) → locale b a ≡ flip (locale a b))
    → (compare_roles locale second first ≡ flip (compare_roles locale first second))
      × (compare_roles locale [] second ≡ compare_roles locale ("worker" ∷ []) second)
unfolding compare_roles
compare_roles-flip locale first second turns = (
  compare_sorted-flip locale turns (sort_roles locale (or_worker first))
      (sort_roles locale (or_worker second)),
  refl,
)
