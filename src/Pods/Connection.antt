-- ===== src/Pods/Connection.antt =====
-- The socket of `useRealtimePods` of frontend/src/hooks/useRealtimePods.ts, with `enabled` true and
-- outside the desktop's polling mode: the effect that connects, its cleanup, the socket's handlers and
-- the timers. `timer` says that `reconnectTimeoutRef` holds a timer that has not fired; `orphans`
-- counts those that it has forgotten. The browser's events come at any time.
pub mod Single
pub mod Prompt
pub mod Leak
pub mod Backoff
mod Tests
use pertisk_kube_app.Base.{
  ℕ, zero, suc, ◌+◌, ◌-◌, ◌*◌, ◌%◌, min, String, Bool, true, false, not, ◌&&◌, ◌||◌, Option, none,
  some, List, [], ◌∷◌, ◌++◌, if◌then◌else◌,
}
use pertisk_kube_app.Base.Lists.{length}
use pertisk_kube_app.Socket.{
  Ready, connecting, open_state, closing, closed, WebSocket, socket_at, update_socket, close,
  safe_close, is_open, is_connecting, is_closed,
}

pub record Link : Type 0 where
  pub sockets : List WebSocket
  pub current : Option ℕ
  pub mounted : Bool
  pub intentional : Bool
  pub timer : Bool
  pub orphans : ℕ
  pub heartbeat : Option ℕ
  pub watchdog : Option ℕ
  pub attempts : ℕ
  pub is_connected : Bool

abbrev pub unconnected : Link
unconnected = record {
  sockets = [];
  current = none;
  mounted = false;
  intentional = false;
  timer = false;
  orphans = 0;
  heartbeat = none;
  watchdog = none;
  attempts = 0;
  is_connected = false;
}

-- reconnectTimeoutRef.current = setTimeout(connect, ...)
abbrev pub set_timer : Link → Link
set_timer s = record s { timer = true; orphans = s.orphans + (if s.timer then 1 else 0) }

abbrev pub fresh : WebSocket
fresh = record { ready = connecting; detached = false; subscriptions = [] }

unfoldable pub connect : Link → Link
connect s = record s {
  intentional = false;
  sockets = s.sockets ++ fresh ∷ [];
  current = some (length s.sockets);
}

-- The wait before a reconnection, in milliseconds.
unfoldable pub backoff : (interval attempts : ℕ) → ℕ
backoff interval attempts = interval + min 5000 ((attempts - 1) * 600) + attempts % 5 * 120

abbrev pub put : (WebSocket → WebSocket) → ℕ → Link → Link
put f i s = record s { sockets = update_socket f i s.sockets }

-- ws.onopen
unfoldable pub on_open : ℕ → WebSocket → Link → Link
on_open i w s =
    if w.detached || s.intentional
    then put (λ v. record v { ready = closing }) i s
    else record (put (λ v. record v { ready = open_state; subscriptions = "pods" ∷ [] }) i s) {
      is_connected = true;
      attempts = 0;
      heartbeat = some i;
      watchdog = some i;
    }

-- ws.onclose
unfoldable pub on_close : ℕ → WebSocket → Link → Link
on_close i w s =
    let s₁ = put (λ v. record v { ready = closed }) i s in
    if w.detached || s.intentional
    then s₁
    else set_timer (record s₁ {
      heartbeat = none;
      watchdog = none;
      is_connected = false;
      current = none;
      attempts = s.attempts + 1;
    })

abbrev pub close_current : Link → Link
close_current s = elim s.current [
  | none ↦ s
  | some i ↦ record (put safe_close i s) { current = none }
]

unfoldable pub disconnect : Link → Link
disconnect s = record (close_current s) {
  intentional = true;
  heartbeat = none;
  watchdog = none;
  timer = false;
  is_connected = false;
}

-- The effect runs and its cleanup runs; the timer that the reference holds fires, or one that it has
-- forgotten; a socket opens or closes; the watchdog finds its socket silent.
pub data Event : Type 0 where
  effect_ran cleaned_up timer_fired orphan_fired went_stale : Event
  opened closed_at : (socket : ℕ) → Event

unfoldable pub at_connecting : ℕ → Option WebSocket → Link → Link
at_connecting i none s = s
at_connecting i (some w) s = if is_connecting w.ready then on_open i w s else s

unfoldable pub at_unclosed : ℕ → Option WebSocket → Link → Link
at_unclosed i none s = s
at_unclosed i (some w) s = if is_closed w.ready then s else on_close i w s

abbrev pub at_orphans : ℕ → Link → Link
at_orphans zero s = s
at_orphans (suc n) s = connect (record s { orphans = n })

abbrev pub close_open : WebSocket → WebSocket
close_open w = if is_open w.ready then record w { ready = closing } else w

unfoldable pub step : Event → Link → Link
unfolding at_connecting at_unclosed
step effect_ran s = if s.mounted then s else set_timer (record s { mounted = true })
step cleaned_up s = if s.mounted then record (disconnect s) { mounted = false } else s
step timer_fired s = if s.timer then connect (record s { timer = false }) else s
step orphan_fired s = at_orphans s.orphans s
step went_stale s = elim s.watchdog [ none ↦ s | some i ↦ put close_open i s ]
step (opened i) s = at_connecting i (socket_at s.sockets i) s
step (closed_at i) s = at_unclosed i (socket_at s.sockets i) s

unfoldable pub run : List Event → Link → Link
run [] s = s
run (e ∷ es) s = run es (step e s)
