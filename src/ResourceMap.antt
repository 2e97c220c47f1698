-- ===== src/ResourceMap.antt =====
-- Which resources the map shows: `computeVisibleNodeIds` of frontend/src/pages/ResourceMapPage.tsx. A node
-- is its id. A Set of ids is the list of its members, the last added first, and the stack of the loop
-- is a list with its top first. The loop takes fuel, of which the number of edges and one more is enough.
pub mod Walk
pub mod Ends
pub mod Shown
mod Tests
use pertisk_kube_app.Base.{
  ℕ, zero, suc, ◌+◌, String, Bool, true, false, not, ◌&&◌, Option, none, some, List, [], ◌∷◌, ◌++◌,
  map, ltb, if◌then◌else◌, ◌==◌,
}
use pertisk_kube_app.Base.Lists.{length, filter, any}
use pertisk_kube_app.Base.Text.{member}

pub record Edge : Type 0 where
  pub source : String
  pub target : String

infixl 5 ◌>>=◌
abbrev pub ◌>>=◌ {ℓ κ} : {A : Type ℓ} {B : Type κ} → Option A → (A → Option B) → Option B
none >>= f = none
some a >>= f = f a

module _ (nodes : List String) (edges : List Edge) where
  -- The edges between nodes of the map.
  abbrev pub inner : List Edge
  inner = filter (λ e. member e.source nodes && member e.target nodes) edges

  -- outgoing.get(id)
  abbrev pub children : String → List String
  children id = map (λ e. e.target) (filter (λ e. e.source == id) inner)

  abbrev pub root_ids : List String
  root_ids = filter (λ id. not (any (λ e. e.target == id) inner)) nodes

  module _ (collapsed : List String) where
    -- The loop of visitFrom, from a stack.
    pub visit : ℕ → List String → List String → Option (List String)
    visit fuel [] visible = some visible
    visit zero (id ∷ stack) visible = none
    visit (suc fuel) (id ∷ stack) visible =
        let passed = visit fuel stack visible in
        let leaf = visit fuel stack (id ∷ visible) in
        let opened = visit fuel (children id ++ stack) (id ∷ visible) in
        if member id visible then passed else if member id collapsed then leaf else opened

    abbrev pub fuel_for_edges : ℕ
    fuel_for_edges = length edges + 1

    -- visitFrom
    abbrev pub visit_from : String → List String → Option (List String)
    visit_from id visible = visit fuel_for_edges (id ∷ []) visible

    -- ids.forEach((id) => visitFrom(id, visible))
    pub visit_each : List String → List String → Option (List String)
    visit_each [] visible = some visible
    visit_each (id ∷ ids) visible = visit_from id visible >>= visit_each ids

    -- The second pass, over the nodes that are not visible yet.
    pub visit_missing : List String → List String → Option (List String)
    visit_missing [] visible = some visible
    visit_missing (id ∷ ids) visible =
        let next = visit_from id visible >>= visit_missing ids in
        let passed = visit_missing ids visible in if member id visible then passed else next

    abbrev pub starts : List String → List String
    starts [] = nodes
    starts (id ∷ ids) = id ∷ ids

    -- The set visibleNodeIds
    unfoldable pub visible_node_ids : Option (List String)
    unfolding visit visit_each visit_missing
    visible_node_ids = do
      visible ← visit_each (starts root_ids) []
      if ltb (length visible) (length nodes) then visit_missing nodes visible else some visible
