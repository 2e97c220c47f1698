-- ===== src/Socket.antt =====
-- The WebSocket that the resource hooks share: the module variables and functions of
-- frontend/src/hooks/useRealtimeResources.ts. The sockets are a store: a handler refers to the
-- socket for which it was made. What the browser does (a socket opens, closes, a timer fires) are
-- events, at any time; that a timer's number is kept after it has fired is left out. `new WebSocket`
-- does not throw.
pub mod Registry
pub mod Store
pub mod Subscriptions
pub mod Synced
pub mod Kept
pub mod Trace
pub mod Stranded
mod Tests
use pertisk_kube_app.Base.{
  ℕ, zero, suc, ◌+◌, ◌-◌, ◌*◌, String, Bool, true, false, not, ◌&&◌, ◌||◌, Option, none, some, List,
  [], ◌∷◌, ◌++◌, map, min, eqb, if◌then◌else◌, ◌==◌,
}
use pertisk_kube_app.Base.Lists.{length, filter}
use pertisk_kube_app.Base.Text.{member}
use pertisk_kube_app.Socket.Registry.{
  Listeners, resources, has_resource, add_listener, remove_listener, listeners_of, all_listeners,
}

pub data Ready : Type 0 where
  connecting open_state closing closed : Ready

-- A WebSocket object. `detached` says that its handlers were taken off and that it closes once it
-- opens; `subscriptions` are the resources that were subscribed to, and not unsubscribed, on it.
pub record WebSocket : Type 0 where
  pub ready : Ready
  pub detached : Bool
  pub subscriptions : List String

pub record Shared : Type 0 where
  pub listeners : Listeners
  pub sockets : List WebSocket
  pub current : Option ℕ
  pub closing_intentional : Bool
  pub in_flight : Bool
  pub reconnect_timer : Bool
  pub heartbeat : Option ℕ
  pub watchdog : Option ℕ
  pub attempts : ℕ

abbrev pub initial : Shared
initial = record {
  listeners = [];
  sockets = [];
  current = none;
  closing_intentional = false;
  in_flight = false;
  reconnect_timer = false;
  heartbeat = none;
  watchdog = none;
  attempts = 0;
}

unfoldable pub socket_at : List WebSocket → ℕ → Option WebSocket
socket_at [] i = none
socket_at (w ∷ ws) zero = some w
socket_at (w ∷ ws) (suc i) = socket_at ws i

unfoldable pub update_socket : (WebSocket → WebSocket) → ℕ → List WebSocket → List WebSocket
update_socket f i [] = []
update_socket f zero (w ∷ ws) = f w ∷ ws
update_socket f (suc i) (w ∷ ws) = w ∷ update_socket f i ws

-- clearRealtimeSharedTimers
unfoldable pub clear_timers : Shared → Shared
clear_timers s = record s { reconnect_timer = false; heartbeat = none; watchdog = none }

-- socket.close()
unfoldable pub close : WebSocket → WebSocket
close w = elim w.ready [
  | connecting ↦ record w { ready = closing }
  | open_state ↦ record w { ready = closing }
  | closing ↦ w
  | closed ↦ w
]

-- safeCloseRealtimeSocket
unfoldable pub safe_close : WebSocket → WebSocket
unfolding close
safe_close w = elim w.ready [
  | connecting ↦ record w { detached = true }
  | open_state ↦ close w
  | closing ↦ close w
  | closed ↦ w
]

abbrev pub is_open : Ready → Bool
is_open open_state = true
is_open _ = false

abbrev pub is_connecting : Ready → Bool
is_connecting connecting = true
is_connecting _ = false

-- readyState of the shared socket is OPEN, or OPEN or CONNECTING
abbrev pub ready_is : (Ready → Bool) → Option WebSocket → Bool
ready_is test none = false
ready_is test (some w) = test w.ready

abbrev pub current_socket : Shared → Option WebSocket
current_socket s = elim s.current [ none ↦ none | some i ↦ socket_at s.sockets i ]

abbrev pub current_is : (Ready → Bool) → Shared → Bool
current_is test s = ready_is test (current_socket s)

-- createSocket
unfoldable pub create_socket : Shared → Shared
create_socket s = elim s.listeners [
  | [] ↦ s
  | _ ∷ _ ↦ record s {
    sockets = s.sockets ++ record { ready = connecting; detached = false; subscriptions = [] } ∷ [];
    current = some (length s.sockets);
  }
]

-- openRealtimeSharedSocket. In the desktop application the connection waits for the backend's
-- port; elsewhere the socket is created at once.
unfoldable pub open_shared : (desktop polling : Bool) → Shared → Shared
unfolding create_socket
open_shared desktop polling s =
    if polling
    then s
    else if current_is (λ r. is_open r || is_connecting r) s
    then s
    else if s.in_flight
    then s
    else if desktop
    then record s { in_flight = true }
    else create_socket s

-- socket.send({ type: 'subscribe' | 'unsubscribe', resource })
abbrev pub send_subscribe : String → WebSocket → WebSocket
send_subscribe r w = record w { subscriptions = w.subscriptions ++ r ∷ [] }

abbrev pub send_unsubscribe : String → WebSocket → WebSocket
send_unsubscribe r w = record w {
  subscriptions = filter (λ q. not (member q (r ∷ []))) w.subscriptions;
}

abbrev pub on_current : (WebSocket → WebSocket) → Shared → Shared
on_current f s = elim s.current [
  | none ↦ s
  | some i ↦ record s { sockets = update_socket f i s.sockets }
]

-- subscribeRealtimeResource
unfoldable pub subscribe : (desktop polling : Bool) → String → ℕ → Shared → Shared
unfolding open_shared update_socket
subscribe desktop polling r listener s =
    let first = not (has_resource r s.listeners) in
    let s₁ = record s { listeners = add_listener r listener s.listeners } in
    let s₂ = open_shared desktop polling s₁ in
    if first && current_is is_open s₂ then on_current (send_subscribe r) s₂ else s₂

drop_current : Shared → Shared
drop_current s = elim s.current [
  | none ↦ s
  | some i ↦ record (clear_timers (record s { closing_intentional = true })) {
    sockets = update_socket safe_close i s.sockets;
    current = none;
  }
]

abbrev is_empty : Listeners → Bool
is_empty [] = true
is_empty (_ ∷ _) = false

-- The function that subscribeRealtimeResource returns.
unfoldable pub unsubscribe : String → ℕ → Shared → Shared
unfolding drop_current clear_timers safe_close update_socket
unsubscribe r listener s =
    if has_resource r s.listeners
    then (let s₁ = record s { listeners = remove_listener r listener s.listeners } in
        let gone = not (has_resource r s₁.listeners) in
        let s₂ = if gone && current_is is_open s₁ then on_current (send_unsubscribe r) s₁ else s₁ in
        if is_empty s₂.listeners then drop_current s₂ else s₂)
    else s

pub data Event : Type 0 where
  subscribed unsubscribed : (resource : String) → (listener : ℕ) → Event
  connect_ready reconnect_fires watchdog_fires : Event
  opened closed_at : (socket : ℕ) → Event

-- socket.onopen, when the socket that connects has opened
unfoldable pub on_opened : ℕ → WebSocket → Shared → Shared
unfolding clear_timers update_socket
on_opened i w s =
    if w.detached || s.closing_intentional
    then record s { sockets = update_socket (λ v. record v { ready = closing }) i s.sockets }
    else record (clear_timers s) {
      attempts = 0;
      heartbeat = some i;
      watchdog = some i;
      sockets =
          update_socket
            (λ v. record v {
              ready = open_state;
              subscriptions = v.subscriptions ++ resources s.listeners;
            })
            i s.sockets;
    }

-- socket.onclose
unfoldable pub on_closed : ℕ → WebSocket → Shared → Shared
unfolding clear_timers update_socket
on_closed i w s =
    let s₁ = record s { sockets = update_socket (λ v. record v { ready = closed }) i s.sockets } in
    let s₂ = clear_timers s₁ in
    if w.detached
    then s₁
    else if s₂.closing_intentional
    then record s₂ { closing_intentional = false }
    else if is_empty s₂.listeners
    then s₂
    else record s₂ { attempts = s₂.attempts + 1; reconnect_timer = true }

-- The wait before a reconnection, in milliseconds.
unfoldable pub reconnect_delay : ℕ → ℕ
reconnect_delay attempts = 1200 + min 5000 ((attempts - 1) * 700)

at_connecting : ℕ → Option WebSocket → Shared → Shared
at_connecting i none s = s
at_connecting i (some w) s = if is_connecting w.ready then on_opened i w s else s

abbrev pub is_closed : Ready → Bool
is_closed closed = true
is_closed _ = false

at_unclosed : ℕ → Option WebSocket → Shared → Shared
at_unclosed i none s = s
at_unclosed i (some w) s = if is_closed w.ready then s else on_closed i w s

abbrev close_if_open : WebSocket → WebSocket
close_if_open w = if is_open w.ready then record w { ready = closing } else w

unfoldable pub step : (desktop polling : Bool) → Event → Shared → Shared
unfolding at_connecting at_unclosed on_opened on_closed
step desktop polling (subscribed r l) s = subscribe desktop polling r l s
step desktop polling (unsubscribed r l) s = unsubscribe r l s
step desktop polling connect_ready s =
    if s.in_flight then create_socket (record s { in_flight = false }) else s
step desktop polling reconnect_fires s =
    if s.reconnect_timer
    then (let s₁ = record s { reconnect_timer = false } in
        if is_empty s₁.listeners then s₁ else open_shared desktop polling s₁)
    else s
step desktop polling watchdog_fires s = elim s.watchdog [
  | none ↦ s
  | some i ↦ record s { sockets = update_socket close_if_open i s.sockets }
]
step desktop polling (opened i) s = at_connecting i (socket_at s.sockets i) s
step desktop polling (closed_at i) s = at_unclosed i (socket_at s.sockets i) s

unfoldable pub run : (desktop polling : Bool) → List Event → Shared → Shared
run desktop polling [] s = s
run desktop polling (e ∷ es) s = run desktop polling es (step desktop polling e s)

-- dispatchRealtimeMessage: the listeners that are called.
unfoldable pub dispatch : (kind : String) → (resource : Option String) → Listeners → List ℕ
dispatch kind none m = if kind == "error" then all_listeners m else []
dispatch kind (some r) m =
    if r == "" then (if kind == "error" then all_listeners m else []) else listeners_of r m
