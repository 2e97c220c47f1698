-- ===== src/PodsPage/Chosen.antt =====
-- Which event a pod's tooltip shows.
use pertisk_kube_app.Base.{
  ℕ, ◌≤◌, String, ◌≡◌, true, ◌||◌, ◌⊎◌, Option, none, some, List, [], ◌∷◌, if◌then◌else◌, ◌==◌,
}
use pertisk_kube_app.Base.Lists.{All, any}
use pertisk_kube_app.PodsPage.Tooltips.{
  EventRow, Tooltip, Tooltips, is_warning, should_replace, candidate,
}

-- A pod's tooltip among the events that are about it.
abbrev pub Among : Tooltip → List Tooltip → Type 0
Among t [] = ⊥
Among t (u ∷ us) = (t ≡ u) ⊎ Among t us

-- The best of the tooltips for a pod: one of them, a warning if any is, and none of its type is later.
pub record IsBest (t : Tooltip) (us : List Tooltip) : Type 0 where
  pub among : Among t us
  pub warning : any is_warning us ≡ true → is_warning t ≡ true
  pub latest : All (λ u. u.event_type ≡ t.event_type → u.ts ≤ t.ts) us

better : Tooltip → Tooltip → Tooltip
better t u = if should_replace t u then u else t

best_of : Tooltip → List Tooltip → Tooltip
best_of t [] = t
best_of t (u ∷ us) = best_of (better t u) us

-- What `better` keeps is one of the two; what it drops is no better.
record Beats (t u b : Tooltip) : Type 0 where
  either : (b ≡ t) ⊎ (b ≡ u)
  warns : (is_warning t || is_warning u) ≡ is_warning b
  first : (is_warning b ≡ true) ⊎ (b.event_type ≡ t.event_type)
  over : t.event_type ≡ b.event_type → t.ts ≤ b.ts
  over' : u.event_type ≡ b.event_type → u.ts ≤ b.ts

module _ (parse_date : String → Option ℕ) (time_ago : String → String) where
  -- The tooltips of the events about a pod, in their order.
  unfoldable pub about : String → List EventRow → List Tooltip
  unfolding candidate
  about key [] = []
  about key (e ∷ es) = elim (candidate parse_date time_ago e) [
    | none ↦ about key es
    | some (k, t) ↦ if k == key then t ∷ about key es else about key es
  ]

  merge : Option Tooltip → List Tooltip → Option Tooltip
  merge o [] = o
  merge none (t ∷ ts) = merge (some t) ts
  merge (some u) (t ∷ ts) = merge (some (better u t)) ts

  chosen : Option Tooltip → Tooltip → Tooltip
  chosen none t = t
  chosen (some u) t = better u t
