-- ===== src/NodeRoles/Sorted.antt =====
-- The sorted roles: the same roles, once each, in their groups.
use pertisk_kube_app.Base.{
  ℕ, ◌≤◌, String, ◌≡◌, refl, ap, ◌∙◌, true, false, ◌&&◌, ◌||◌, inl, inr, List, [], ◌∷◌, ◌++◌, arith,
  eq_iff, ◌==◌, Bool-cases,
}
use pertisk_kube_app.Base.Lists.{All, All-weaken, filter}
use pertisk_kube_app.Base.Sorted.{IsSorted, runs}
use pertisk_kube_app.Base.Text.{member, nonempty, trim, to_lower}
use pertisk_kube_app.Base.Distinct.{Distinct, eq_comm, member-filter}
use pertisk_kube_app.Base.Sets.{unique, member-unique, Distinct-unique}
use pertisk_kube_app.NodeRoles.{
  Order, role_order, index_of, rank, compare_labels, at_most, insert_role, sort_by_label,
  sort_roles,
}

module _ (locale : String → String → Order) where
  rank-at_most :
      (r s : String)
      → (at_most locale (compare_labels locale r s) ≡ true → rank r ≤ rank s)
        × (at_most locale (compare_labels locale r s) ≡ false → rank s ≤ rank r)
  unfolding compare_labels
  rank-at_most r s = (λ h. ground arith, λ h. ground arith)

  member-insert_role :
      (r : String) (rs : List String) (q : String)
      → member q (insert_role locale r rs) ≡ (r == q || member q rs)
  unfolding insert_role
  member-insert_role r [] q = refl
  member-insert_role r (s ∷ rs) q = ground (arith, member-insert_role r rs q)

  Distinct-insert_role :
      (r : String) (rs : List String)
      → member r rs ≡ false
      → Distinct rs
      → Distinct (insert_role locale r rs)
  unfolding insert_role
  Distinct-insert_role r [] h d = (refl, tt)
  Distinct-insert_role r (s ∷ rs) h (fresh, d) =
      elim (Bool-cases (at_most locale (compare_labels locale r s))) [
        | inl e ↦ rw (e, insert_role) (h, (fresh, d))
        | inr e ↦
            rw (e, insert_role)
              (
                ground (arith, member-insert_role r rs s, eq_comm r s),
                Distinct-insert_role r rs (ground arith) d,
              )
      ]

  bound-insert_role :
      (n : ℕ) (r : String) (rs : List String)
      → n ≤ rank r
      → All (λ s. n ≤ rank s) rs
      → All (λ s. n ≤ rank s) (insert_role locale r rs)
  unfolding insert_role
  bound-insert_role n r [] h hs = (h, tt)
  bound-insert_role n r (s ∷ rs) h (k, hs) =
      elim (Bool-cases (at_most locale (compare_labels locale r s))) [
        | inl e ↦ rw (e, insert_role) (h, (k, hs))
        | inr e ↦ rw (e, insert_role) (k, bound-insert_role n r rs h hs)
      ]

  weaken :
      (n m : ℕ) (rs : List String) → n ≤ m → All (λ s. m ≤ rank s) rs → All (λ s. n ≤ rank s) rs
  weaken n m [] le h = tt
  weaken n m (r ∷ rs) le (h, hs) = (omega (arith, le, h), weaken n m rs le hs)

  insert_role-IsSorted :
      (r : String) (rs : List String) → IsSorted rank rs → IsSorted rank (insert_role locale r rs)
  unfolding insert_role
  insert_role-IsSorted r [] h = (tt, tt)
  insert_role-IsSorted r (s ∷ rs) (low, h) =
      elim (Bool-cases (at_most locale (compare_labels locale r s))) [
        | inl e ↦
            let le = (rank-at_most r s).0 e in
            rw (e, insert_role) ((le, weaken (rank r) (rank s) rs le low), (low, h))
        | inr e ↦
            rw (e, insert_role)
              (
                bound-insert_role (rank s) r rs ((rank-at_most r s).1 e) low,
                insert_role-IsSorted r rs h,
              )
      ]

  member-sort_by_label :
      (rs : List String) (q : String) → member q (sort_by_label locale rs) ≡ member q rs
  unfolding sort_by_label
  member-sort_by_label [] q = refl
  member-sort_by_label (r ∷ rs) q =
      member-insert_role r (sort_by_label locale rs) q
      ∙ ap (λ b. r == q || b) (member-sort_by_label rs q)

  Distinct-sort_by_label : (rs : List String) → Distinct rs → Distinct (sort_by_label locale rs)
  unfolding sort_by_label
  Distinct-sort_by_label [] d = tt
  Distinct-sort_by_label (r ∷ rs) (fresh, d) =
      Distinct-insert_role r (sort_by_label locale rs) (member-sort_by_label rs r ∙ fresh)
        (Distinct-sort_by_label rs d)

  sort_by_label-IsSorted : (rs : List String) → IsSorted rank (sort_by_label locale rs)
  unfolding sort_by_label
  sort_by_label-IsSorted [] = tt
  sort_by_label-IsSorted (r ∷ rs) =
      insert_role-IsSorted r (sort_by_label locale rs) (sort_by_label-IsSorted rs)

-- trim().toLowerCase()
abbrev pub normal : String → String
normal role = to_lower (trim role)

abbrev pub IsRole : String → String → Type 0
IsRole word role = normal role ≡ word

-- The roles in five groups, one after the other.
pub record IsGrouped (roles : List String) : Type 0 where
  pub control_planes : List String
  pub masters : List String
  pub workers : List String
  pub nodes : List String
  pub others : List String
  pub split : roles ≡ control_planes ++ (masters ++ (workers ++ (nodes ++ others)))
  pub are_control_planes : All (IsRole "control-plane") control_planes
  pub are_masters : All (IsRole "master") masters
  pub are_workers : All (IsRole "worker") workers
  pub are_nodes : All (IsRole "node") nodes
  pub are_others :
      All
        (λ r. member (normal r) ("control-plane" ∷ "master" ∷ "worker" ∷ "node" ∷ []) ≡ false)
        others

module _ (r : String) where
  rank-zero : rank r ≡ 0 → IsRole "control-plane" r
  unfolding rank index_of role_order
  rank-zero h =
      ground (arith, eq_iff (normal r) "control-plane", eq_comm (normal r) "control-plane")

  rank-one : rank r ≡ 1 → IsRole "master" r
  unfolding rank index_of role_order
  rank-one h = ground (arith, eq_iff (normal r) "master", eq_comm (normal r) "master")

  rank-two : rank r ≡ 2 → IsRole "worker" r
  unfolding rank index_of role_order
  rank-two h = ground (arith, eq_iff (normal r) "worker", eq_comm (normal r) "worker")

  rank-three : rank r ≡ 3 → IsRole "node" r
  unfolding rank index_of role_order
  rank-three h = ground (arith, eq_iff (normal r) "node", eq_comm (normal r) "node")

  rank-other :
      4 ≤ rank r → member (normal r) ("control-plane" ∷ "master" ∷ "worker" ∷ "node" ∷ []) ≡ false
  unfolding rank index_of role_order
  rank-other h = ground arith

IsSorted-IsGrouped : (roles : List String) → IsSorted rank roles → IsGrouped roles
IsSorted-IsGrouped roles s =
    let r = runs rank roles s in
    record {
      control_planes = r.zeros;
      masters = r.ones;
      workers = r.twos;
      nodes = r.threes;
      others = r.others;
      split = r.split;
      are_control_planes =
          All-weaken (λ q. rank q ≡ 0) (IsRole "control-plane") rank-zero r.zeros r.at_zero;
      are_masters = All-weaken (λ q. rank q ≡ 1) (IsRole "master") rank-one r.ones r.at_one;
      are_workers = All-weaken (λ q. rank q ≡ 2) (IsRole "worker") rank-two r.twos r.at_two;
      are_nodes = All-weaken (λ q. rank q ≡ 3) (IsRole "node") rank-three r.threes r.at_three;
      are_others =
          All-weaken (λ q. 4 ≤ rank q)
            (λ q. member (normal q) ("control-plane" ∷ "master" ∷ "worker" ∷ "node" ∷ []) ≡ false)
            rank-other r.others r.above;
    }

-- Whatever the locale, the sorted roles are the roles that are not empty, each once. Those that read, trimmed
-- and in lower case, "control-plane" come first, then "master", "worker" and "node", and last all others.
pub sort_roles-IsGrouped :
    (locale : String → String → Order) (roles : List String) (q : String)
    → IsGrouped (sort_roles locale roles)
      × Distinct (sort_roles locale roles)
      × (member q (sort_roles locale roles) ≡ (member q roles && nonempty q))
unfolding sort_roles
sort_roles-IsGrouped locale roles q = (
  IsSorted-IsGrouped (sort_roles locale roles)
      (sort_by_label-IsSorted locale (unique (filter nonempty roles))),
  Distinct-sort_by_label locale (unique (filter nonempty roles))
      (Distinct-unique (filter nonempty roles)),
  member-sort_by_label locale (unique (filter nonempty roles)) q
      ∙ member-unique (filter nonempty roles) q
      ∙ member-filter nonempty roles q,
)
