-- ===== src/Selection.antt =====
-- The item that a detail panel shows, kept in step with the list of a realtime hook:
-- frontend/src/hooks/useSyncSelectedRealtimeItem.ts. The panel's setters are the next state; `stringify`
-- stands for JSON.stringify on the type of the items.
pub mod Follows
mod Tests
use pertisk_kube_app.Base.{
  String, Bool, true, false, not, ◌&&◌, ◌||◌, Option, none, some, List, [], ◌∷◌, if◌then◌else◌,
  ◌==◌,
}
use pertisk_kube_app.Base.Lists.{find}
use pertisk_kube_app.Base.Text.{◌<>◌}
use pertisk_kube_app.Pods.Raw.{has_text}

pub record Panel {ℓ} (T : Type ℓ) : Type ℓ where
  pub items : Option (List T)
  pub selected_key : Option String
  pub selected_item : Option T
  pub panel_open : Bool

abbrev pub namespaced_resource_key : String → String → String
namespaced_resource_key namespace name = namespace <> "/" <> name

-- x === key, where the key may be null
abbrev pub is_key : Option String → String → Bool
is_key none s = false
is_key (some key) s = s == key

-- Whether the effect goes on: !panelOpen || !selectedKey || !selectedItem || !items?.length
abbrev pub follows {ℓ} : {T : Type ℓ} → Panel T → Bool
follows p =
    p.panel_open
    && has_text p.selected_key
    && (elim p.selected_item [ none ↦ false | some _ ↦ true ])
    && (elim p.items [ none ↦ false | some [] ↦ false | some (_ ∷ _) ↦ true ])

abbrev pub rows_of {ℓ} : {T : Type ℓ} → Option (List T) → List T
rows_of none = []
rows_of (some rows) = rows

module _ {ℓ} {T : Type ℓ} (stringify : T → String) (match_key : T → String) where
  abbrev pub differs_from : Option T → T → Bool
  differs_from none updated = true
  differs_from (some item) updated = not (stringify updated == stringify item)

  -- What the effect does with the row that it finds.
  unfoldable pub show : Option T → Panel T → Panel T
  show none p = record p { selected_item = none }
  show (some updated) p =
      if differs_from p.selected_item updated then record p { selected_item = some updated } else p

  -- The effect of useSyncSelectedRealtimeItem.
  unfoldable pub sync_selected : Panel T → Panel T
  unfolding show
  sync_selected p =
      if follows p
      then show (find (λ item. is_key p.selected_key (match_key item)) (rows_of p.items)) p
      else p
