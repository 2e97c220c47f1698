-- ===== src/ResourceMap/Walk.antt =====
-- The walk of `visitFrom` ends, and what it has visited then.
use pertisk_kube_app.Base.{
  ℕ, suc, ◌+◌, ◌≤◌, String, ◌≡◌, sym, subst, true, false, ◌||◌, ◌⊎◌, inl, inr, List, [], ◌∷◌, ◌++◌,
  map, if◌then◌else◌, ◌==◌, arith, eq_iff, eq_refl, Bool-cases,
}
use pertisk_kube_app.Base.Lists.{length, filter}
use pertisk_kube_app.Base.Text.{member}
use pertisk_kube_app.Base.Distinct.{Distinct, member-append}
use pertisk_kube_app.ResourceMap.{Edge, children}

-- The edges from nodes that are not visible.
abbrev pub pending : List String → List Edge → ℕ
pending visible [] = 0
pending visible (e ∷ es) =
    if member e.source visible then pending visible es else suc (pending visible es)

pub pending-le : (visible : List String) (es : List Edge) → pending visible es ≤ length es
pending-le visible [] = omega arith
pending-le visible (e ∷ es) = ground (arith, pending-le visible es)

-- A node that becomes visible takes its edges with it.
pub pending-visit :
    (id : String) (visible : List String) (es : List Edge)
    → member id visible ≡ false
    → pending (id ∷ visible) es + length (map (λ e. e.target) (filter (λ e. e.source == id) es))
      ≡ pending visible es
pending-visit id visible [] h = omega arith
pending-visit id visible (e ∷ es) h =
    ground (arith, pending-visit id visible es h, eq_iff e.source id, eq_iff id e.source)

pub pending_mono :
    (id : String) (visible : List String) (es : List Edge)
    → pending (id ∷ visible) es ≤ pending visible es
pending_mono id visible [] = omega arith
pending_mono id visible (e ∷ es) = ground (arith, pending_mono id visible es)

module _ (nodes : List String) (edges : List Edge) (collapsed : List String) where
  -- From the first node the second can be reached through nodes that are not collapsed.
  pub data Leads : String → String → Type 0 where
    here : {x : String} → Leads x x
    step :
        {x y : String} (z : String)
        → member x collapsed ≡ false
        → member z (children nodes edges x) ≡ true
        → Leads z y
        → Leads x y

  abbrev pub Origin : List String → String → Type 0
  Origin stack y = (s : String) × (member s stack ≡ true) × Leads s y

  -- The children of an expanded node that is visible are visible, or wait on the stack.
  pub record IsClosed (visible stack : List String) : Type 0 where
    pub expanded :
        (x z : String)
        → member x visible ≡ true
        → member x collapsed ≡ false
        → member z (children nodes edges x) ≡ true
        → (member z visible || member z stack) ≡ true

  pub record Visited (stack visible result : List String) : Type 0 where
    pub kept : (y : String) → member y visible ≡ true → member y result ≡ true
    pub taken : (y : String) → member y stack ≡ true → member y result ≡ true
    pub distinct : Distinct visible → Distinct result
    pub sound : (y : String) → member y result ≡ true → (member y visible ≡ true) ⊎ Origin stack y
    pub closed : IsClosed visible stack → IsClosed result []

  pub Visited-empty : (visible : List String) → Visited [] visible visible
  Visited-empty visible = record {
    kept = λ y h. h;
    taken = λ y h. cc;
    distinct = λ d. d;
    sound = λ y h. inl h;
    closed = λ c. c;
  }

  module _ (id : String) (stack visible result : List String) where
    pub Visited-passed :
        member id visible ≡ true
        → Visited stack visible result
        → Visited (id ∷ stack) visible result
    Visited-passed seen v = record {
      kept = v.kept;
      taken = λ y h. elim (Bool-cases (id == y)) [
        | inl e ↦ v.kept y (subst (λ k. member k visible ≡ true) ((eq_iff id y).0 e) seen)
        | inr e ↦ v.taken y (ground arith)
      ];
      distinct = v.distinct;
      sound = λ y h. elim (v.sound y h) [
        | inl old ↦ inl old
        | inr (s, m, walk) ↦ inr (s, ground arith, walk)
      ];
      closed = λ c. v.closed (record {
        expanded = λ x z mx ex mz. elim (Bool-cases (id == z)) [
          | inl e ↦
              let there = subst (λ k. member k visible ≡ true) ((eq_iff id z).0 e) seen in
              ground arith
          | inr e ↦ ground (arith, c.expanded x z mx ex mz)
        ];
      });
    }

    module _ (fresh : member id visible ≡ false) where
      pub Visited-leaf :
          member id collapsed ≡ true
          → Visited stack (id ∷ visible) result
          → Visited (id ∷ stack) visible result
      Visited-leaf shut v = record {
        kept = λ y h. v.kept y (ground arith);
        taken = λ y h. elim (Bool-cases (id == y)) [
          | inl e ↦ v.kept y (ground arith)
          | inr e ↦ v.taken y (ground arith)
        ];
        distinct = λ d. v.distinct (fresh, d);
        sound = λ y h. elim (v.sound y h) [
          | inl old ↦ elim (Bool-cases (id == y)) [
            | inl e ↦
                inr (id, ground (arith, eq_refl id), subst (Leads id) ((eq_iff id y).0 e) here)
            | inr e ↦ inl (ground arith)
          ]
          | inr (s, m, walk) ↦ inr (s, ground arith, walk)
        ];
        closed = λ c. v.closed (record {
          expanded = λ x z mx ex mz. elim (Bool-cases (id == x)) [
            | inl e ↦
                let shut' = subst (λ k. member k collapsed ≡ true) ((eq_iff id x).0 e) shut in cc
            | inr e ↦ ground (arith, c.expanded x z)
          ];
        });
      }

      pub Visited-opened :
          member id collapsed ≡ false
          → Visited (children nodes edges id ++ stack) (id ∷ visible) result
          → Visited (id ∷ stack) visible result
      Visited-opened expanded v = record {
        kept = λ y h. v.kept y (ground arith);
        taken = λ y h. elim (Bool-cases (id == y)) [
          | inl e ↦ v.kept y (ground arith)
          | inr e ↦ v.taken y (ground (arith, member-append y (children nodes edges id) stack))
        ];
        distinct = λ d. v.distinct (fresh, d);
        sound = λ y h. elim (v.sound y h) [
          | inl old ↦ elim (Bool-cases (id == y)) [
            | inl e ↦
                inr (id, ground (arith, eq_refl id), subst (Leads id) ((eq_iff id y).0 e) here)
            | inr e ↦ inl (ground arith)
          ]
          | inr (s, m, walk) ↦ elim (Bool-cases (member s (children nodes edges id))) [
            | inl child ↦ inr (id, ground (arith, eq_refl id), step s expanded child walk)
            | inr other ↦
                inr (s, ground (arith, member-append s (children nodes edges id) stack), walk)
          ]
        ];
        closed = λ c. v.closed (record {
          expanded = λ x z mx ex mz. elim (Bool-cases (id == x)) [
            | inl e ↦
                let child =
                  subst (λ k. member z (children nodes edges k) ≡ true) (sym ((eq_iff id x).0 e))
                    mz in
                ground (arith, member-append z (children nodes edges id) stack)
            | inr e ↦
                ground (arith, c.expanded x z, member-append z (children nodes edges id) stack)
          ];
        });
      }
