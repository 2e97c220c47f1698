-- ===== src/ResourceMap/Ends.antt =====
-- The loop of `visitFrom` ends within the fuel, and visits what the collapsed nodes do not hide.
use pertisk_kube_app.Base.{
  ℕ, zero, suc, ◌+◌, ◌≤◌, String, ◌≡◌, ◌↔◌, refl, sym, subst, true, false, ◌&&◌, ◌⊎◌, inl, inr,
  some, List, [], ◌∷◌, ◌++◌, arith, eq_iff, eq_refl, Bool-cases,
}
use pertisk_kube_app.Base.Lists.{length, length-append, length-filter-le}
use pertisk_kube_app.Base.Text.{member}
use pertisk_kube_app.ResourceMap.{Edge, inner, children, visit, visit_from, fuel_for_edges}
use pertisk_kube_app.ResourceMap.Walk.{
  pending, pending-le, pending-visit, pending_mono, Leads, here, step, IsClosed, Visited,
  Visited-empty, Visited-passed, Visited-leaf, Visited-opened,
}

module _ (nodes : List String) (edges : List Edge) (collapsed : List String) where
  -- The nodes on the stack and the edges that may still be pushed.
  abbrev work : List String → List String → ℕ
  work stack visible = length stack + pending visible (inner nodes edges)

  abbrev Ends : ℕ → List String → List String → Type 0
  Ends fuel stack visible =
      (result : List String) × (visit nodes edges collapsed fuel stack visible ≡ some result)
      × Visited nodes edges collapsed stack visible result

  work-opened :
      (id : String) (stack visible : List String)
      → member id visible ≡ false
      → work (children nodes edges id ++ stack) (id ∷ visible) + 1 ≡ work (id ∷ stack) visible
  work-opened id stack visible fresh = omega (
    arith,
    length-append (children nodes edges id) stack,
    pending-visit id visible (inner nodes edges) fresh,
  )

  visit-Ends :
      (fuel : ℕ) (stack visible : List String) → work stack visible ≤ fuel → Ends fuel stack visible
  unfolding visit
  visit-Ends zero [] visible h = (visible, refl, Visited-empty nodes edges collapsed visible)
  visit-Ends (suc fuel) [] visible h = (visible, refl, Visited-empty nodes edges collapsed visible)
  visit-Ends zero (id ∷ stack) visible h = absurd (omega arith)
  visit-Ends (suc fuel) (id ∷ stack) visible h = elim (Bool-cases (member id visible)) [
    | inl seen ↦
        let (result, ends, v) = visit-Ends fuel stack visible (omega arith) in
        (result, rw seen ends, Visited-passed nodes edges collapsed id stack visible result seen v)
    | inr fresh ↦ elim (Bool-cases (member id collapsed)) [
      | inl shut ↦
          let (result, ends, v) =
            visit-Ends fuel stack (id ∷ visible)
              (omega (arith, pending_mono id visible (inner nodes edges))) in
          (
            result,
            rw fresh (rw shut ends),
            Visited-leaf nodes edges collapsed id stack visible result fresh shut v,
          )
      | inr expanded ↦
          let (result, ends, v) =
            visit-Ends fuel (children nodes edges id ++ stack) (id ∷ visible)
              (omega (arith, work-opened id stack visible fresh)) in
          (
            result,
            rw fresh (rw expanded ends),
            Visited-opened nodes edges collapsed id stack visible result fresh expanded v,
          )
    ]
  ]

  pub visit_from_ends :
      (id : String) (visible : List String)
      → (result : List String) × (visit_from nodes edges collapsed id visible ≡ some result)
        × Visited nodes edges collapsed (id ∷ []) visible result
  visit_from_ends id visible = visit-Ends (fuel_for_edges nodes edges collapsed) (id ∷ []) visible (
      omega (
        arith,
        pending-le visible (inner nodes edges),
        length-filter-le (λ e. member e.source nodes && member e.target nodes) edges,
      ))

  pub closed_complete :
      (visible : List String) (x y : String)
      → IsClosed nodes edges collapsed visible []
      → member x visible ≡ true
      → Leads nodes edges collapsed x y
      → member y visible ≡ true
  closed_complete visible x y c h here = h
  closed_complete visible x y c h (step z expanded child walk) =
      closed_complete visible z y c (ground (arith, c.expanded x z h expanded child)) walk

-- From a node, with a set that already holds the children of the expanded nodes in it, the walk of
-- the map ends, and the set is then what it was and all that the node leads to through nodes
-- that are not collapsed.
pub visit_from-Leads :
    (nodes : List String) (edges : List Edge) (collapsed : List String) (id : String)
    (visible : List String)
    → IsClosed nodes edges collapsed visible []
    → (result : List String) × (visit_from nodes edges collapsed id visible ≡ some result)
      × IsClosed nodes edges collapsed result []
      × ((y : String)
          → (member y result ≡ true)
            ↔ ((member y visible ≡ true) ⊎ Leads nodes edges collapsed id y))
visit_from-Leads nodes edges collapsed id visible c =
    let (result, ends, v) = visit_from_ends nodes edges collapsed id visible in
    let closed =
      v.closed (record { expanded = λ x z mx ex mz. ground (arith, c.expanded x z mx ex mz) }) in
    let there = v.taken id (ground (arith, eq_refl id)) in
    (
      result,
      ends,
      closed,
      λ y. (
        λ h. elim (v.sound y h) [
          | inl old ↦ inl old
          | inr (s, m, walk) ↦ inr (
              subst (λ k. Leads nodes edges collapsed k y) (sym ((eq_iff id s).0 (ground arith)))
                walk)
        ],
        elim [
          | inl old ↦ v.kept y old
          | inr walk ↦ closed_complete nodes edges collapsed result id y closed there walk
        ],
      ),
    )
