-- ===== src/NodeRoles.antt =====
-- The roles of a node: frontend/src/utils/nodeRoles.ts. `locale` stands for `localeCompare` with the
-- base sensitivity, which depends on the locale. `sort` is stable, as the language's is.
pub mod Sorted
pub mod Compare
mod Tests
use pertisk_kube_app.Base.{
  ℕ, suc, String, Bool, true, false, not, Option, none, some, List, [], ◌∷◌, ltb, if◌then◌else◌,
  ◌==◌,
}
use pertisk_kube_app.Base.Lists.{filter}
use pertisk_kube_app.Base.Sets.{unique}
use pertisk_kube_app.Base.Text.{trim, to_lower, nonempty}

-- The sign of a comparison: negative, zero or positive.
pub data Order : Type 0 where
  before same after : Order

role_order : List String
role_order = "control-plane" ∷ "master" ∷ "worker" ∷ "node" ∷ []

-- indexOf, and the length of the list where the text is not in it
index_of : String → List String → ℕ
index_of role [] = 0
index_of role (r ∷ rs) = let rest = index_of role rs in if r == role then 0 else suc rest

-- getNodeRoleRank
unfoldable pub rank : String → ℕ
unfolding index_of role_order trim to_lower
rank role = index_of (to_lower (trim role)) role_order

-- first?.length ? first : ['worker']
abbrev pub or_worker : List String → List String
or_worker [] = "worker" ∷ []
or_worker (r ∷ rs) = r ∷ rs

module _ (locale : String → String → Order) where
  -- compareNodeRoleLabels
  unfoldable pub compare_labels : String → String → Order
  compare_labels a b =
      if ltb (rank a) (rank b) then before else if ltb (rank b) (rank a) then after else locale a b

  abbrev pub at_most : Order → Bool
  at_most before = true
  at_most same = true
  at_most after = false

  unfoldable pub insert_role : String → List String → List String
  insert_role r [] = r ∷ []
  insert_role r (s ∷ rs) =
      let rest = insert_role r rs in if at_most (compare_labels r s) then r ∷ s ∷ rs else s ∷ rest

  unfoldable pub sort_by_label : List String → List String
  unfolding insert_role
  sort_by_label [] = []
  sort_by_label (r ∷ rs) = insert_role r (sort_by_label rs)

  -- sortNodeRoles
  unfoldable pub sort_roles : List String → List String
  unfolding unique sort_by_label
  sort_roles roles = sort_by_label (unique (filter nonempty roles))

  -- The loop of compareNodeRoleSets over both sorted lists.
  unfoldable pub compare_sorted : List String → List String → Order
  unfolding compare_labels
  compare_sorted [] [] = same
  compare_sorted [] (s ∷ ss) = before
  compare_sorted (r ∷ rs) [] = after
  compare_sorted (r ∷ rs) (s ∷ ss) =
      let rest = compare_sorted rs ss in
      elim (compare_labels r s) [ same ↦ rest | before ↦ before | after ↦ after ]

  -- compareNodeRoleSets
  unfoldable pub compare_roles : List String → List String → Order
  unfolding compare_sorted sort_roles
  compare_roles first second =
      compare_sorted (sort_roles (or_worker first)) (sort_roles (or_worker second))
