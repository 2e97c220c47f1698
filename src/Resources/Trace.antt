-- ===== src/Resources/Trace.antt =====
-- The list of a resource hook over any sequence of events.
use pertisk_kube_app.Base.{
  String, ◌≡◌, refl, sym, ap, subst, Bool, true, false, ◌&&◌, ◌||◌, inl, inr, Option, none, some,
  List, [], ◌∷◌, arith, if◌then◌else◌, ◌==◌, Bool-cases, Option-cases,
}
use pertisk_kube_app.Base.Lists.{All}
use pertisk_kube_app.Base.Text.{to_upper}
use pertisk_kube_app.Pods.Raw.{has_text}
use pertisk_kube_app.Base.Distinct.{Distinct}
use pertisk_kube_app.Resources.Kind.{RawItem, Kind, keys, IsLawful, deleted_key, reconcile_interval}
use pertisk_kube_app.Resources.Laws.{Distinct-remove, Distinct-upsert}
use pertisk_kube_app.Resources.Reducer.{remove, remove?, upsert, on_update}
use pertisk_kube_app.Resources.Errors.{
  should_ignore, is_transient_connectivity_error, is_fetch_connection_error,
}
use pertisk_kube_app.Resources.Hook.{
  State, initial, Event, updated, subscribed, server_error, empty_timeout, snapshot,
  snapshot_failed, reconciled, cluster_switched, refreshed, Timer, held, orphan, stray, on_timeout,
  on_item, last_with, reconcile_rows, step, run,
}

module _ {ℓ κ} {Body : Type ℓ} {T : Type κ} (k : Kind Body T) where
  -- A REST list names no key twice.
  abbrev pub IsRegular : Event Body T → Type 0
  IsRegular (snapshot rows) = Distinct (keys k rows)
  IsRegular (reconciled rows) = Distinct (keys k rows)
  IsRegular _ = Unit

  abbrev pub IsDistinct : State T → Type 0
  IsDistinct s = Distinct (keys k s.rows)

module _ {ℓ κ} {Body : Type ℓ} {T : Type κ} (k : Kind Body T) (law : IsLawful k) where
  Distinct-remove? :
      (o : Option String) (rows : List T)
      → Distinct (keys k rows)
      → Distinct (keys k (remove? k o rows))
  Distinct-remove? none rows d = d
  Distinct-remove? (some key) rows d = go (key == "")
    where
      go : (b : Bool) → Distinct (keys k (if b then rows else remove k key rows))
      go true = d
      go false = Distinct-remove k key rows d

  Distinct-if :
      (b : Bool) (xs ys : List T)
      → Distinct (keys k xs)
      → Distinct (keys k ys)
      → Distinct (keys k (if b then xs else ys))
  Distinct-if true xs ys dx dy = dx
  Distinct-if false xs ys dx dy = dy

  Distinct-on_update :
      (action : Option String) (raw : RawItem Body) (rows : List T)
      → Distinct (keys k rows)
      → Distinct (keys k (on_update k action raw rows))
  unfolding on_update
  Distinct-on_update none raw rows d = d
  Distinct-on_update (some word) raw rows d =
      let writes = to_upper word == "ADDED" || to_upper word == "MODIFIED" in
      let written = if writes then upsert k (k.transform raw) rows else rows in
      let dropped = remove? k (deleted_key k.resource_type raw) rows in
      Distinct-if
        (k.resource_type == "nodes"
          && (writes && (has_text raw.deletion_timestamp && has_text raw.name)))
        (remove? k raw.name rows) (if to_upper word == "DELETED" then dropped else written)
        (Distinct-remove? raw.name rows d)
        (Distinct-if (to_upper word == "DELETED") dropped written
          (Distinct-remove? (deleted_key k.resource_type raw) rows d)
          (Distinct-if writes (upsert k (k.transform raw) rows) rows
            (Distinct-upsert k law (k.transform raw) rows d) d))

  key-refreshed :
      (b : Bool) (row p : T) → k.get_key (if b then k.refresh row p else row) ≡ k.get_key row
  key-refreshed true row p = law.key-refresh row p
  key-refreshed false row p = refl

  keys-reconcile_rows : (prev rows : List T) → keys k (reconcile_rows k prev rows) ≡ keys k rows
  unfolding reconcile_rows
  keys-reconcile_rows prev [] = refl
  keys-reconcile_rows prev (row ∷ rows) = elim (Option-cases (last_with k (k.get_key row) prev)) [
    | inl e ↦ rw (e, reconcile_rows) (ap (λ ks. k.get_key row ∷ ks) (keys-reconcile_rows prev rows))
    | inr (p, e) ↦
        rw (e, reconcile_rows)
          (cc (key-refreshed (k.resource_type == "nodes") row p, keys-reconcile_rows prev rows))
  ]

  on_item-IsDistinct :
      (action : Option String) (item : Option (RawItem Body)) (s : State T)
      → IsDistinct k s
      → IsDistinct k (on_item k action item s)
  unfolding on_item
  on_item-IsDistinct action none s d = d
  on_item-IsDistinct action (some raw) s d = Distinct-on_update action raw s.rows d

  rows-on_timeout : (timer : Timer) (s : State T) → (on_timeout timer s).rows ≡ s.rows
  unfolding on_timeout
  rows-on_timeout held s = elim (Bool-cases s.empty_timer) [
    | inl e ↦ rw (e, on_timeout)
    | inr e ↦ rw (e, on_timeout)
  ]
  rows-on_timeout orphan s = ground arith
  rows-on_timeout stray s = ground arith

  step-IsDistinct :
      (e : Event Body T) (s : State T) → IsRegular k e → IsDistinct k s → IsDistinct k (step k e s)
  unfolding step
  step-IsDistinct (updated action item) s reg d = on_item-IsDistinct action item _ d
  step-IsDistinct subscribed s reg d = d
  step-IsDistinct (server_error message) s reg d = elim (Bool-cases (should_ignore message)) [
    | inl e ↦ rw (e, step) d
    | inr e ↦ elim (Bool-cases (is_transient_connectivity_error message)) [
      | inl f ↦ rw (e, f, step) d
      | inr f ↦ rw (e, f, step) d
    ]
  ]
  step-IsDistinct (empty_timeout timer) s reg d =
      subst (λ rows. Distinct (keys k rows)) (sym (rows-on_timeout timer s)) d
  step-IsDistinct (snapshot rows) s reg d = elim (Bool-cases s.received) [
    | inl e ↦ rw (e, step) d
    | inr e ↦ rw (e, step) reg
  ]
  step-IsDistinct (snapshot_failed thrown) s reg d =
      elim (Bool-cases (is_fetch_connection_error thrown)) [
        | inl e ↦ rw (e, step) d
        | inr e ↦ rw (e, step) d
      ]
  step-IsDistinct (reconciled rows) s reg d =
      elim (Option-cases (reconcile_interval k.resource_type)) [
        | inl e ↦ rw (e, step) d
        | inr (ms, e) ↦ rw (e, step, keys-reconcile_rows s.rows rows) reg
      ]
  step-IsDistinct cluster_switched s reg d = tt
  step-IsDistinct refreshed s reg d = d

  run_from-IsDistinct :
      (es : List (Event Body T)) (s : State T)
      → All (IsRegular k) es
      → IsDistinct k s
      → IsDistinct k (run k es s)
  unfolding run
  run_from-IsDistinct [] s reg d = d
  run_from-IsDistinct (e ∷ es) s (r, reg) d =
      run_from-IsDistinct es (step k e s) reg (step-IsDistinct e s r d)

-- Whatever events arrive, in any order, with REST lists that name no key twice, the hook of any
-- resource lists a key at most once.
pub run-IsDistinct {ℓ κ} :
    {Body : Type ℓ} {T : Type κ} (k : Kind Body T)
    → IsLawful k
    → (es : List (Event Body T)) → All (IsRegular k) es
    → IsDistinct k (run k es initial)
run-IsDistinct k law es reg = run_from-IsDistinct k law es initial reg tt
