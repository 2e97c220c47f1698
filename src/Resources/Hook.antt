-- ===== src/Resources/Hook.antt =====
-- The state of a hook that `createRealtimeHook` of frontend/src/hooks/useRealtimeResources.ts
-- makes, and its events. `received` is the effect's `receivedRealtimeEvent`: a snapshot that
-- answers after the first watch event is dropped. `empty_timer` says that `emptyListTimeout` holds a
-- running timer. A second `subscribed` message starts another and forgets the first, which nothing
-- can cancel then: `orphans` counts those of this effect, `strays` those of the effects before it.
use pertisk_kube_app.Base.{
  ℕ, zero, suc, ◌+◌, String, Bool, true, false, Option, none, some, List, [], ◌∷◌, eqb,
  if◌then◌else◌, ◌==◌,
}
use pertisk_kube_app.Base.Lists.{length}
use pertisk_kube_app.Pods.Raw.{or_text}
use pertisk_kube_app.Resources.Kind.{RawItem, Kind, reconcile_interval}
use pertisk_kube_app.Resources.Errors.{
  Thrown, should_ignore, is_transient_connectivity_error, is_fetch_connection_error,
}
use pertisk_kube_app.Resources.Reducer.{on_update, has_key}

pub record State {κ} (T : Type κ) : Type κ where
  pub rows : List T
  pub is_loading : Bool
  pub error : Option String
  pub has_fetched : Bool
  pub empty_confirmed : Bool
  pub received : Bool
  pub empty_timer : Bool
  pub orphans : ℕ
  pub strays : ℕ

abbrev pub initial {κ} : {T : Type κ} → State T
initial = record {
  rows = [];
  is_loading = true;
  error = none;
  has_fetched = false;
  empty_confirmed = false;
  received = false;
  empty_timer = false;
  orphans = 0;
  strays = 0;
}

pub data Timer : Type 0 where
  held orphan stray : Timer

-- A message's `data` is `none` where it is falsy. `reconciled` is a REST list that the interval
-- fetched while the page is visible.
pub data Event {ℓ κ} (Body : Type ℓ) (T : Type κ) : Type (ℓ ⊔ κ) where
  updated : (action : Option String) → (item : Option (RawItem Body)) → Event Body T
  subscribed : Event Body T
  server_error : (message : Option String) → Event Body T
  empty_timeout : Timer → Event Body T
  snapshot : List T → Event Body T
  snapshot_failed : Thrown → Event Body T
  reconciled : List T → Event Body T
  cluster_switched refreshed : Event Body T

abbrev settled {κ} : {T : Type κ} → List T → State T → State T
settled rows s = record s {
  rows = rows;
  has_fetched = true;
  is_loading = false;
  empty_confirmed = eqb (length rows) 0;
  error = none;
}

abbrev confirmed {κ} : {T : Type κ} → State T → State T
confirmed s = record s { has_fetched = true; is_loading = false; empty_confirmed = true }

-- A timer fires. It clears the variable of its effect: the timer that stood there is forgotten.
unfoldable pub on_timeout {κ} : {T : Type κ} → Timer → State T → State T
on_timeout held s = if s.empty_timer then confirmed (record s { empty_timer = false }) else s
on_timeout orphan s = elim s.orphans [
  | zero ↦ s
  | suc n ↦
      confirmed (record s { empty_timer = false; orphans = n + (if s.empty_timer then 1 else 0) })
]
on_timeout stray s = elim s.strays [ zero ↦ s | suc n ↦ confirmed (record s { strays = n }) ]

module _ {ℓ κ} {Body : Type ℓ} {T : Type κ} (k : Kind Body T) where
  unfoldable pub on_item : Option String → Option (RawItem Body) → State T → State T
  on_item action none s = s
  on_item action (some raw) s = record s { rows = on_update k action raw s.rows }

  -- prevByKey.get(key): of several rows with one key a Map keeps the last.
  pub last_with : String → List T → Option T
  last_with key [] = none
  last_with key (row ∷ rows) = elim (last_with key rows) [
    | some p ↦ some p
    | none ↦ if has_key k key row then some row else none
  ]

  -- The rows of a reconciliation: those of the list; a node takes its missing usage from its row.
  unfoldable pub reconcile_rows : List T → List T → List T
  unfolding last_with
  reconcile_rows prev [] = []
  reconcile_rows prev (row ∷ rows) = elim (last_with (k.get_key row) prev) [
    | some p ↦
        (if k.resource_type == "nodes" then k.refresh row p else row) ∷ reconcile_rows prev rows
    | none ↦ row ∷ reconcile_rows prev rows
  ]

  unfoldable pub step : Event Body T → State T → State T
  unfolding on_item on_timeout
  step (updated action item) s =
      on_item action item
        (record s { received = true; empty_timer = false; has_fetched = true; is_loading = false })
  step subscribed s = record s {
    empty_timer = true;
    orphans = s.orphans + (if s.empty_timer then 1 else 0);
  }
  step (server_error message) s =
      if should_ignore message
      then s
      else if is_transient_connectivity_error message
      then record s { error = none }
      else record s { error = some (or_text message "Unknown error") }
  step (empty_timeout timer) s = on_timeout timer s
  step (snapshot rows) s = if s.received then s else settled rows s
  step (snapshot_failed thrown) s =
      if is_fetch_connection_error thrown then record s { error = none } else s
  step (reconciled rows) s = elim (reconcile_interval k.resource_type) [
    | none ↦ s
    | some ms ↦ record (settled rows s) { rows = reconcile_rows s.rows rows }
  ]
  step cluster_switched s = record initial { strays = s.orphans + s.strays }
  step refreshed s = record initial { rows = s.rows; strays = s.orphans + s.strays }

  unfoldable pub run : List (Event Body T) → State T → State T
  run [] s = s
  run (e ∷ es) s = run es (step e s)
