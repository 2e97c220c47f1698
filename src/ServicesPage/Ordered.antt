-- ===== src/ServicesPage/Ordered.antt =====
-- The order of the services by their status.
use Prim.Native.Nat.{compare, Ordering}
use pertisk_kube_app.Base.{
  ℕ, ◌≤◌, String, ◌≡◌, refl, Bool, true, false, inl, inr, List, [], ◌∷◌, ◌++◌, ◌⊎◌, ◌||◌,
  if◌then◌else◌, arith, eq_iff, ◌==◌, Bool-cases,
}
use pertisk_kube_app.Base.Lists.{All, All-weaken, filter}
use pertisk_kube_app.Base.Sorted.{IsSorted, runs}
use pertisk_kube_app.Display.{is_pending, is_headless, service_status, service_status_rank}
use pertisk_kube_app.PodsPage.Table.{asc}
use pertisk_kube_app.PodsPage.Rows.{Collation, is_after, insert_row, sort_rows}
use pertisk_kube_app.ServicesPage.{
  Service, then_by, compare_services, passes_filters, sorted_services,
}

rank_of : Service → ℕ
rank_of s = service_status_rank s.row

after-rank :
    (m n : ℕ) (o : Ordering)
    → (is_after (then_by (compare m n) o) ≡ true → n ≤ m)
      × (is_after (then_by (compare m n) o) ≡ false → m ≤ n)
after-rank m n o = (λ h. ground arith, λ h. ground arith)

module _ (order : Service → Service → Ordering)
    (after : (s t : Service) → is_after (order s t) ≡ true → rank_of t ≤ rank_of s)
    (before : (s t : Service) → is_after (order s t) ≡ false → rank_of s ≤ rank_of t) where
  All-insert_row :
      (n : ℕ) (s : Service) (ss : List Service)
      → n ≤ rank_of s
      → All (λ t. n ≤ rank_of t) ss
      → All (λ t. n ≤ rank_of t) (insert_row order s ss)
  unfolding insert_row
  All-insert_row n s [] h hs = (h, tt)
  All-insert_row n s (t ∷ ts) h (k, ks) = elim (Bool-cases (is_after (order s t))) [
    | inl e ↦ rw (e, insert_row) (k, All-insert_row n s ts h ks)
    | inr e ↦ rw (e, insert_row) (h, (k, ks))
  ]

  insert_row-IsSorted :
      (s : Service) (ss : List Service)
      → IsSorted rank_of ss
      → IsSorted rank_of (insert_row order s ss)
  unfolding insert_row
  insert_row-IsSorted s [] h = (tt, tt)
  insert_row-IsSorted s (t ∷ ts) (low, h) = elim (Bool-cases (is_after (order s t))) [
    | inl e ↦
        rw (e, insert_row)
          (All-insert_row (rank_of t) s ts (after s t e) low, insert_row-IsSorted s ts h)
    | inr e ↦
        let first = before s t e in
        rw (e, insert_row)
          (
            (
              first,
              All-weaken (λ u. rank_of t ≤ rank_of u) (λ u. rank_of s ≤ rank_of u)
                  (λ u k. omega (arith, first, k)) ts low,
            ),
            (low, h),
          )
  ]

  sort_rows-IsSorted : (ss : List Service) → IsSorted rank_of (sort_rows order ss)
  unfolding sort_rows
  sort_rows-IsSorted [] = tt
  sort_rows-IsSorted (s ∷ ss) = insert_row-IsSorted s (sort_rows order ss) (sort_rows-IsSorted ss)

-- Services with one status.
abbrev pub HasStatus : String → Service → Type 0
HasStatus word s = service_status s.row ≡ word

-- The rows in five groups, one after the other, by their status.
pub record IsGrouped (rows : List Service) : Type 0 where
  pub pending : List Service
  pub exposed : List Service
  pub internal : List Service
  pub headless : List Service
  pub external_names : List Service
  pub split : rows ≡ pending ++ (exposed ++ (internal ++ (headless ++ external_names)))
  pub are_pending : All (HasStatus "Pending") pending
  pub are_exposed : All (HasStatus "Exposed") exposed
  pub are_internal : All (HasStatus "Internal") internal
  pub are_headless : All (HasStatus "Headless") headless
  pub are_external_names : All (HasStatus "ExternalName") external_names

one_of :
    (a b c d : Bool)
    → let word : String =
        if a
        then "ExternalName"
        else if b
        then "Pending"
        else if c
        then "Exposed"
        else if d
        then "Headless"
        else "Internal" in
      (word ≡ "ExternalName")
      ⊎ ((word ≡ "Pending") ⊎ ((word ≡ "Exposed") ⊎ ((word ≡ "Headless") ⊎ (word ≡ "Internal"))))
one_of true b c d = inl refl
one_of false true c d = inr (inl refl)
one_of false false true d = inr (inr (inl refl))
one_of false false false true = inr (inr (inr (inl refl)))
one_of false false false false = inr (inr (inr (inr refl)))

module _ (s : Service) where
  rank-zero : rank_of s ≡ 0 → HasStatus "Pending" s
  unfolding rank_of service_status_rank
  rank-zero h = ground (arith, eq_iff (service_status s.row) "Pending")

  rank-one : rank_of s ≡ 1 → HasStatus "Exposed" s
  unfolding rank_of service_status_rank
  rank-one h = ground (arith, eq_iff (service_status s.row) "Exposed")

  rank-two : rank_of s ≡ 2 → HasStatus "Internal" s
  unfolding rank_of service_status_rank
  rank-two h = ground (arith, eq_iff (service_status s.row) "Internal")

  rank-three : rank_of s ≡ 3 → HasStatus "Headless" s
  unfolding rank_of service_status_rank
  rank-three h = ground (arith, eq_iff (service_status s.row) "Headless")

  -- The five words of a status.
  words :
      HasStatus "ExternalName" s
      ⊎ (HasStatus "Pending" s
          ⊎ (HasStatus "Exposed" s ⊎ (HasStatus "Headless" s ⊎ HasStatus "Internal" s)))
  unfolding service_status
  words =
      one_of (s.row.service_type == "ExternalName") (is_pending s.row)
        (s.row.service_type == "LoadBalancer" || s.row.service_type == "NodePort")
        (is_headless s.row.cluster_ip)

  rank-other : 4 ≤ rank_of s → HasStatus "ExternalName" s
  unfolding rank_of service_status_rank
  rank-other h = elim words [
    | inl e ↦ e
    | inr (inl e) ↦ ground (arith, eq_iff (service_status s.row) "Pending")
    | inr (inr (inl e)) ↦ ground (arith, eq_iff (service_status s.row) "Exposed")
    | inr (inr (inr (inl e))) ↦ ground (arith, eq_iff (service_status s.row) "Headless")
    | inr (inr (inr (inr e))) ↦ ground (arith, eq_iff (service_status s.row) "Internal")
  ]

-- Whatever the locale and the filters, the rows in ascending order of their status show the services with
-- the status "Pending" first, then those with "Exposed", with "Internal", with "Headless", and last those
-- with "ExternalName".
pub sorted_services-IsGrouped :
    (c : Collation) (namespaces : List String) (text : String) (services : List Service)
    → IsGrouped
        (sorted_services c namespaces text (record { key = "status"; direction = asc }) services)
unfolding sorted_services compare_services rank_of
sorted_services-IsGrouped c namespaces text services =
    let shown = filter (passes_filters namespaces text) services in
    let order = compare_services c (record { key = "status"; direction = asc }) in
    let sorted : IsSorted rank_of (sort_rows order shown) =
      sort_rows-IsSorted order
        (λ s t. (after-rank (rank_of s) (rank_of t) (c.locale_compare s.name t.name)).0)
        (λ s t. (after-rank (rank_of s) (rank_of t) (c.locale_compare s.name t.name)).1) shown in
    let r = runs rank_of (sort_rows order shown) sorted in
    record {
      pending = r.zeros;
      exposed = r.ones;
      internal = r.twos;
      headless = r.threes;
      external_names = r.others;
      split = r.split;
      are_pending =
          All-weaken (λ s. rank_of s ≡ 0) (HasStatus "Pending") rank-zero r.zeros r.at_zero;
      are_exposed = All-weaken (λ s. rank_of s ≡ 1) (HasStatus "Exposed") rank-one r.ones r.at_one;
      are_internal =
          All-weaken (λ s. rank_of s ≡ 2) (HasStatus "Internal") rank-two r.twos r.at_two;
      are_headless =
          All-weaken (λ s. rank_of s ≡ 3) (HasStatus "Headless") rank-three r.threes r.at_three;
      are_external_names =
          All-weaken (λ s. 4 ≤ rank_of s) (HasStatus "ExternalName") rank-other r.others r.above;
    }
