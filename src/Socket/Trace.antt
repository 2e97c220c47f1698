-- ===== src/Socket/Trace.antt =====
-- What holds of the shared socket after any run of events.
use pertisk_kube_app.Base.{
  ℕ, String, ◌≡◌, refl, sym, ap, subst, ◌∙◌, Bool, true, false, inl, inr, Option, none, some, List,
  [], ◌∷◌, if◌then◌else◌, Bool-cases, Option-cases,
}
use pertisk_kube_app.Base.Text.{member}
use pertisk_kube_app.Socket.Registry.{Listeners, has_resource}
use pertisk_kube_app.Socket.Subscriptions.{Agrees, Synced, Synced-create_socket, Synced-open_shared}
use pertisk_kube_app.Socket.Kept.{
  listeners-create_socket, listeners-open_shared, listeners-subscribe, listeners-unsubscribe,
  listeners-on_opened, listeners-on_closed,
}
use pertisk_kube_app.Socket.Synced.{
  subscribe-Synced, Synced-update, Agrees-over, unsubscribe-Synced, on_opened-Synced,
  on_closed-Synced,
}
use pertisk_kube_app.Socket.{
  WebSocket, Shared, initial, socket_at, is_open, is_connecting, is_closed, close_if_open,
  open_shared, subscribe, unsubscribe, is_empty, Event, subscribed, unsubscribed, connect_ready,
  reconnect_fires, watchdog_fires, opened, closed_at, on_opened, on_closed, at_connecting,
  at_unclosed, step, run,
}

-- The current socket, if it is open, has exactly the resources with listeners subscribed.
abbrev pub IsSynced : Shared → Type 0
IsSynced s = Synced s.listeners s

unsubscribe_absent :
    (r : String) (l : ℕ) (s : Shared) → has_resource r s.listeners ≡ false → unsubscribe r l s ≡ s
unfolding unsubscribe
unsubscribe_absent r l s e = rw e

unsubscribe-IsSynced : (r : String) (l : ℕ) (s : Shared) → IsSynced s → IsSynced (unsubscribe r l s)
unsubscribe-IsSynced r l s h = elim (Bool-cases (has_resource r s.listeners)) [
  | inl e ↦
      subst (λ m. Synced m (unsubscribe r l s)) (sym (listeners-unsubscribe r l s e))
        (unsubscribe-Synced r l s h e)
  | inr e ↦ subst IsSynced (sym (unsubscribe_absent r l s e)) h
]

moved : (s t : Shared) → t.listeners ≡ s.listeners → Synced s.listeners t → IsSynced t
moved s t e h = subst (λ m. Synced m t) (sym e) h

on_opened-IsSynced :
    (i : ℕ) (o : Option WebSocket) (s : Shared)
    → socket_at s.sockets i ≡ o
    → IsSynced s
    → IsSynced (at_connecting i o s)
unfolding at_connecting
on_opened-IsSynced i none s e h = h
on_opened-IsSynced i (some w) s e h = elim (Bool-cases (is_connecting w.ready)) [
  | inl waits ↦
      rw waits
        (moved s (on_opened i w s) (listeners-on_opened i w s) (on_opened-Synced i w s e waits h))
  | inr other ↦ rw other h
]

on_closed-IsSynced :
    (i : ℕ) (o : Option WebSocket) (s : Shared) → IsSynced s → IsSynced (at_unclosed i o s)
unfolding at_unclosed
on_closed-IsSynced i none s h = h
on_closed-IsSynced i (some w) s h = elim (Bool-cases (is_closed w.ready)) [
  | inl done ↦ rw done h
  | inr other ↦
      rw other (moved s (on_closed i w s) (listeners-on_closed i w s) (on_closed-Synced i w s h))
]

if-IsSynced : (b : Bool) (s t : Shared) → IsSynced s → IsSynced t → IsSynced (if b then s else t)
if-IsSynced true s t h k = h
if-IsSynced false s t h k = k

same_sockets :
    (m : Listeners) (s t : Shared)
    → t.current ≡ s.current
    → t.sockets ≡ s.sockets
    → Synced m s
    → Synced m t
unfolding Synced
same_sockets m s t c e h i w cur at = h i w (sym c ∙ cur) (ap (λ ws. socket_at ws i) (sym e) ∙ at)

Agrees-close : (m : Listeners) (w : WebSocket) → Agrees m w → Agrees m (close_if_open w)
Agrees-close m w a = elim (Bool-cases (is_open w.ready)) [
  | inl e ↦ rw e (Agrees-over m _ refl refl)
  | inr e ↦ rw e a
]

step-IsSynced :
    (desktop polling : Bool) (e : Event) (s : Shared)
    → IsSynced s
    → IsSynced (step desktop polling e s)
unfolding step
step-IsSynced desktop polling (subscribed r l) s h =
    subst (λ m. Synced m (subscribe desktop polling r l s))
      (sym (listeners-subscribe desktop polling r l s)) (subscribe-Synced desktop polling r l s h)
step-IsSynced desktop polling (unsubscribed r l) s h = unsubscribe-IsSynced r l s h
step-IsSynced desktop polling connect_ready s h =
    if-IsSynced s.in_flight _ s
      (moved (record s { in_flight = false }) _
        (listeners-create_socket (record s { in_flight = false }))
        (Synced-create_socket s.listeners (record s { in_flight = false })
          (same_sockets s.listeners s _ refl refl h)))
      h
step-IsSynced desktop polling reconnect_fires s h =
    let s₁ = record s { reconnect_timer = false } in
    let h₁ : Synced s.listeners s₁ = same_sockets s.listeners s s₁ refl refl h in
    if-IsSynced s.reconnect_timer _ s
      (if-IsSynced (is_empty s.listeners) s₁ (open_shared desktop polling s₁) h₁ (
        moved s₁ (open_shared desktop polling s₁) (listeners-open_shared desktop polling s₁)
          (Synced-open_shared desktop polling s.listeners s₁ h₁)))
      h
step-IsSynced desktop polling watchdog_fires s h = elim (Option-cases s.watchdog) [
  | inl e ↦ rw (e, step) h
  | inr (i, e) ↦
      rw (e, step)
        (Synced-update close_if_open i s.listeners s _ refl refl
          (λ v at a. Agrees-close s.listeners v a) h)
]
step-IsSynced desktop polling (opened i) s h = on_opened-IsSynced i (socket_at s.sockets i) s refl h
step-IsSynced desktop polling (closed_at i) s h = on_closed-IsSynced i (socket_at s.sockets i) s h

run-IsSynced :
    (desktop polling : Bool) (es : List Event) (s : Shared)
    → IsSynced s
    → IsSynced (run desktop polling es s)
unfolding run
run-IsSynced desktop polling [] s h = h
run-IsSynced desktop polling (e ∷ es) s h =
    run-IsSynced desktop polling es (step desktop polling e s) (step-IsSynced desktop polling e s h)

-- After any run of events, in a browser or in the desktop application, the current socket, if it is
-- open, has a resource subscribed just if a component listens to it.
pub subscriptions-run :
    (desktop polling : Bool) (es : List Event) (i : ℕ) (w : WebSocket) (r : String)
    → (run desktop polling es initial).current ≡ some i
    → socket_at (run desktop polling es initial).sockets i ≡ some w
    → is_open w.ready ≡ true
    → member r w.subscriptions ≡ has_resource r (run desktop polling es initial).listeners
unfolding Synced
subscriptions-run desktop polling es i w r current at is_on =
    (run-IsSynced desktop polling es initial (λ j v cur there. cc) i w current at).while_open is_on
      r
