-- ===== src/ResourceMap/Shown.antt =====
-- What the two passes of `computeVisibleNodeIds` show.
use pertisk_kube_app.Base.{
  ◌≤◌, String, ◌≡◌, ◌↔◌, refl, sym, subst, Bool, true, false, not, ◌&&◌, ◌⊎◌, inl, inr, some, List,
  [], ◌∷◌, map, ltb, ◌==◌, arith, eq_iff, Bool-cases,
}
use pertisk_kube_app.Base.Lists.{length, filter, any}
use pertisk_kube_app.Base.Text.{member}
use pertisk_kube_app.Base.Distinct.{Distinct, member-filter, length-le_of_subset}
use pertisk_kube_app.ResourceMap.{
  Edge, inner, visit_each, visit_missing, root_ids, starts, visible_node_ids,
}
use pertisk_kube_app.ResourceMap.Walk.{Leads, here, step, Origin, IsClosed, Visited}
use pertisk_kube_app.ResourceMap.Ends.{visit_from_ends, closed_complete}

-- A child is a node of the map.
member-targets :
    (nodes : List String) (edges : List Edge) (x z : String)
    → member z (
        map
          (λ e. e.target)
          (filter
            (λ e. e.source == x)
            (filter (λ e. member e.source nodes && member e.target nodes) edges)))
      ≡ true
    → member z nodes ≡ true
member-targets nodes [] x z h = cc
member-targets nodes (e ∷ es) x z h =
    elim (Bool-cases (member e.source nodes && member e.target nodes)) [
      | inl inside ↦ elim (Bool-cases (e.source == x)) [
        | inl from ↦ elim (Bool-cases (e.target == z)) [
          | inl to ↦ subst (λ k. member k nodes ≡ true) ((eq_iff e.target z).0 to) (ground arith)
          | inr other ↦ member-targets nodes es x z (ground arith)
        ]
        | inr other ↦ member-targets nodes es x z (ground arith)
      ]
      | inr outside ↦ member-targets nodes es x z (ground arith)
    ]

module _ (nodes : List String) (edges : List Edge) (collapsed : List String) where
  Leads-within :
      (x y : String)
      → Leads nodes edges collapsed x y
      → member x nodes ≡ true
      → member y nodes ≡ true
  Leads-within x y here h = h
  Leads-within x y (step z expanded child walk) h =
      Leads-within z y walk (member-targets nodes edges x z child)

  -- What walks from some nodes add to a set.
  record Grown (ids visible result : List String) : Type 0 where
    kept : (y : String) → member y visible ≡ true → member y result ≡ true
    taken : (y : String) → member y ids ≡ true → member y result ≡ true
    distinct : Distinct visible → Distinct result
    sound :
        (y : String)
        → member y result ≡ true
        → (member y visible ≡ true) ⊎ Origin nodes edges collapsed ids y
    closed : IsClosed nodes edges collapsed visible [] → IsClosed nodes edges collapsed result []

  Grown-nil : (visible : List String) → Grown [] visible visible
  Grown-nil visible = record {
    kept = λ y h. h;
    taken = λ y h. cc;
    distinct = λ d. d;
    sound = λ y h. inl h;
    closed = λ c. c;
  }

  Grown-cons :
      (id : String) (ids visible middle result : List String)
      → Visited nodes edges collapsed (id ∷ []) visible middle
      → Grown ids middle result
      → Grown (id ∷ ids) visible result
  Grown-cons id ids visible middle result v g = record {
    kept = λ y h. g.kept y (v.kept y h);
    taken = λ y h. elim (Bool-cases (id == y)) [
      | inl e ↦ g.kept y (v.taken y (ground arith))
      | inr e ↦ g.taken y (ground arith)
    ];
    distinct = λ d. g.distinct (v.distinct d);
    sound = λ y h. elim (g.sound y h) [
      | inl old ↦ elim (v.sound y old) [
        | inl older ↦ inl older
        | inr (s, m, walk) ↦ inr (s, ground arith, walk)
      ]
      | inr (s, m, walk) ↦ inr (s, ground arith, walk)
    ];
    closed = λ c.
        g.closed (
          v.closed (record { expanded = λ x z mx ex mz. ground (arith, c.expanded x z mx ex mz) }));
  }

  Grown-skip :
      (id : String) (ids visible result : List String)
      → member id visible ≡ true
      → Grown ids visible result
      → Grown (id ∷ ids) visible result
  Grown-skip id ids visible result seen g = record {
    kept = g.kept;
    taken = λ y h. elim (Bool-cases (id == y)) [
      | inl e ↦ g.kept y (subst (λ k. member k visible ≡ true) ((eq_iff id y).0 e) seen)
      | inr e ↦ g.taken y (ground arith)
    ];
    distinct = g.distinct;
    sound = λ y h. elim (g.sound y h) [
      | inl old ↦ inl old
      | inr (s, m, walk) ↦ inr (s, ground arith, walk)
    ];
    closed = g.closed;
  }

  visit_each_ends :
      (ids visible : List String)
      → (result : List String) × (visit_each nodes edges collapsed ids visible ≡ some result)
        × Grown ids visible result
  unfolding visit_each
  visit_each_ends [] visible = (visible, refl, Grown-nil visible)
  visit_each_ends (id ∷ ids) visible =
      let (middle, first, v) = visit_from_ends nodes edges collapsed id visible in
      let (result, ends, g) = visit_each_ends ids middle in
      (result, rw first ends, Grown-cons id ids visible middle result v g)

  visit_missing_ends :
      (ids visible : List String)
      → (result : List String) × (visit_missing nodes edges collapsed ids visible ≡ some result)
        × Grown ids visible result
  unfolding visit_missing
  visit_missing_ends [] visible = (visible, refl, Grown-nil visible)
  visit_missing_ends (id ∷ ids) visible = elim (Bool-cases (member id visible)) [
    | inl seen ↦
        let (result, ends, g) = visit_missing_ends ids visible in
        (result, rw seen ends, Grown-skip id ids visible result seen g)
    | inr fresh ↦
        let (middle, first, v) = visit_from_ends nodes edges collapsed id visible in
        let (result, ends, g) = visit_missing_ends ids middle in
        (result, rw fresh (rw first ends), Grown-cons id ids visible middle result v g)
  ]

  start-within :
      (y : String)
      → member y (starts nodes edges collapsed (root_ids nodes edges)) ≡ true
      → member y nodes ≡ true
  start-within y h = cases (root_ids nodes edges) (λ m. ground (arith, roots m)) h
    where
      roots : member y (root_ids nodes edges) ≡ true → member y nodes ≡ true
      roots m =
          ground (
            arith,
            member-filter (λ id. not (any (λ e. e.target == id) (inner nodes edges))) nodes y,
          )

      cases :
          (ids : List String)
          → (member y ids ≡ true → member y nodes ≡ true)
          → member y (starts nodes edges collapsed ids) ≡ true
          → member y nodes ≡ true
      cases [] k m = m
      cases (id ∷ ids) k m = k m

  Grown-within :
      (ids result : List String)
      → Grown ids [] result
      → ((y : String) → member y ids ≡ true → member y nodes ≡ true)
      → (y : String) → member y result ≡ true
      → member y nodes ≡ true
  Grown-within ids result g within y h = elim (g.sound y h) [
    | inl old ↦ cc
    | inr (s, m, walk) ↦ Leads-within s y walk (within s m)
  ]

  IsClosed-nil : IsClosed nodes edges collapsed [] []
  IsClosed-nil = record { expanded = λ x z mx ex mz. cc }

Bool-ext : (b c : Bool) → (b ≡ true → c ≡ true) → (c ≡ true → b ≡ true) → b ≡ c
Bool-ext true c f g = sym (f refl)
Bool-ext false true f g = g refl
Bool-ext false false f g = refl

-- As many distinct nodes as the map has are all of them.
member-of_length :
    (nodes visible : List String) (y : String)
    → Distinct visible
    → ((x : String) → member x visible ≡ true → member x nodes ≡ true)
    → length nodes ≤ length visible
    → member y nodes ≡ true
    → member y visible ≡ true
member-of_length nodes visible y d within many h = elim (Bool-cases (member y visible)) [
  | inl e ↦ e
  | inr fresh ↦
      let fewer =
        length-le_of_subset (y ∷ visible) nodes (fresh, d)
          (λ x m. elim (Bool-cases (y == x)) [
            | inl e ↦ subst (λ k. member k nodes ≡ true) ((eq_iff y x).0 e) h
            | inr e ↦ within x (ground arith)
          ]) in
      absurd (omega arith)
]

-- The first pass ends, and shows exactly the nodes to which a root of the map, or any node where the
-- map has no root, leads through nodes that are not collapsed.
pub visit_each-Leads :
    (nodes : List String) (edges : List Edge) (collapsed : List String)
    → (result : List String) × (visit_each nodes edges collapsed
          (starts nodes edges collapsed (root_ids nodes edges))
          []
        ≡ some result)
      × ((y : String)
          → (member y result ≡ true)
            ↔ Origin nodes edges collapsed (starts nodes edges collapsed (root_ids nodes edges)) y)
visit_each-Leads nodes edges collapsed =
    let first = starts nodes edges collapsed (root_ids nodes edges) in
    let (result, ends, g) = visit_each_ends nodes edges collapsed first [] in
    (
      result,
      ends,
      λ y. (
        λ h. elim (g.sound y h) [ inl old ↦ cc | inr o ↦ o ],
        λ (s, m, walk).
            closed_complete nodes edges collapsed result s y
              (g.closed (IsClosed-nil nodes edges collapsed)) (g.taken s m) walk,
      ),
    )

-- Whatever is collapsed, the walks of the map end within their fuel and every node of the map is
-- shown, and nothing else: the second pass shows again what the first one hid.
pub visible_node_ids-all :
    (nodes : List String) (edges : List Edge) (collapsed : List String)
    → (visible : List String) × (visible_node_ids nodes edges collapsed ≡ some visible)
      × ((y : String) → member y visible ≡ member y nodes)
unfolding visible_node_ids
visible_node_ids-all nodes edges collapsed =
    let first = starts nodes edges collapsed (root_ids nodes edges) in
    let (middle, ends, g) = visit_each_ends nodes edges collapsed first [] in
    let within =
      Grown-within nodes edges collapsed first middle g (start-within nodes edges collapsed) in
    elim (Bool-cases (ltb (length middle) (length nodes))) [
      | inl less ↦
          let (result, ends', g') = visit_missing_ends nodes edges collapsed nodes middle in
          (
            result,
            rw ends (rw less ends'),
            λ y.
                Bool-ext (member y result) (member y nodes)
                  (λ h. elim (g'.sound y h) [
                    | inl old ↦ within y old
                    | inr (s, m, walk) ↦ Leads-within nodes edges collapsed s y walk m
                  ])
                  (g'.taken y),
          )
      | inr all ↦ (
        middle,
        rw ends (rw all refl),
        λ y.
            Bool-ext (member y middle) (member y nodes) (within y)
              (member-of_length nodes middle y (g.distinct tt) within (ground arith)),
      )
    ]
