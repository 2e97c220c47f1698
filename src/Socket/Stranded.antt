-- ===== src/Socket/Stranded.antt =====
-- A subscriber that stays without a connection: the flag of an intentional close outlives the
-- socket that it was set for.
use pertisk_kube_app.Base.{
  ℕ, zero, suc, String, ◌≡◌, ◌≢◌, refl, sym, ◌∙◌, Bool, true, false, ◌||◌, Option, none, some, List,
  [], ◌∷◌, arith, eq_refl, inl, inr, Bool-cases, Option-cases,
}
use pertisk_kube_app.Base.Lists.{All}
use pertisk_kube_app.Socket.Registry.{add_listener, remove_listener}
use pertisk_kube_app.Socket.{
  Ready, connecting, closing, closed, WebSocket, Shared, initial, socket_at, update_socket, Event,
  subscribed, unsubscribed, connect_ready, opened, closed_at, reconnect_fires, watchdog_fires, step,
  run, subscribe, unsubscribe, is_open, is_connecting, is_closed, on_opened, on_closed,
  at_connecting, at_unclosed, close_if_open, open_shared,
}

abbrev pub IsDown : WebSocket → Type 0
IsDown w = (is_open w.ready ≡ false) × ((w.detached || is_closed w.ready) ≡ true)

-- There are listeners, every socket is closed, or has no handlers and is not open, and no attempt to
-- connect is under way.
pub record IsStranded (s : Shared) : Type 0 where
  pub listening : s.listeners ≢ []
  pub down : All IsDown s.sockets
  pub no_timer : s.reconnect_timer ≡ false
  pub no_attempt : s.in_flight ≡ false

once : String → ℕ → Shared
once r l = record initial {
  listeners = (r, l ∷ []) ∷ [];
  sockets = record { ready = connecting; detached = false; subscriptions = [] } ∷ [];
  current = some 0;
}

after_subscribe : (r : String) (l : ℕ) → step false false (subscribed r l) initial ≡ once r l
unfolding step subscribe add_listener open_shared socket_at once
after_subscribe r l = refl

flagged : Shared
flagged = record initial {
  sockets = record { ready = connecting; detached = true; subscriptions = [] } ∷ [];
  closing_intentional = true;
}

after_unsubscribe : (r : String) (l : ℕ) → step false false (unsubscribed r l) (once r l) ≡ flagged
unfolding step unsubscribe remove_listener once flagged socket_at
after_unsubscribe r l = ground (arith, eq_refl r)

abbrev first_socket : WebSocket
first_socket = record { ready = connecting; detached = true; subscriptions = [] }

abbrev second_socket : Ready → WebSocket
second_socket r = record { ready = r; detached = false; subscriptions = [] }

switched : String → ℕ → Ready → Bool → Shared
switched r l ready flag = record initial {
  listeners = (r, l ∷ []) ∷ [];
  sockets = first_socket ∷ second_socket ready ∷ [];
  current = some 1;
  closing_intentional = flag;
}

resubscribed :
    (r : String) (l : ℕ) → step false false (subscribed r l) flagged ≡ switched r l connecting true
unfolding step subscribe add_listener open_shared socket_at flagged switched
resubscribed r l = refl

reopened :
    (r : String) (l : ℕ)
    → step false false (opened 1) (switched r l connecting true) ≡ switched r l closing true
unfolding step socket_at switched
reopened r l = refl

reclosed :
    (r : String) (l : ℕ)
    → step false false (closed_at 1) (switched r l closing true) ≡ switched r l closed false
unfolding step socket_at switched
reclosed r l = refl

abbrev pub quick_switch : String → ℕ → String → ℕ → List Event
quick_switch r l r' l' =
    subscribed r l ∷ unsubscribed r l ∷ subscribed r' l' ∷ opened 1 ∷ closed_at 1 ∷ []

run-quick_switch :
    (r r' : String) (l l' : ℕ)
    → run false false (quick_switch r l r' l') initial ≡ switched r' l' closed false
unfolding run
run-quick_switch r r' l l' =
    rw (
      after_subscribe r l,
      after_unsubscribe r l,
      resubscribed r' l',
      reopened r' l',
      reclosed r' l',
    )

switched-IsStranded : (r : String) (l : ℕ) → IsStranded (switched r l closed false)
unfolding switched
switched-IsStranded r l = record {
  listening = cc;
  down = ground arith;
  no_timer = refl;
  no_attempt = refl;
}

-- Events that no code of a page causes: the browser's and the timers'.
abbrev pub IsBrowser : Event → Type 0
IsBrowser (subscribed r l) = ⊥
IsBrowser (unsubscribed r l) = ⊥
IsBrowser _ = Unit

All-update_socket :
    (f : WebSocket → WebSocket) (i : ℕ) (ws : List WebSocket)
    → ((w : WebSocket) → socket_at ws i ≡ some w → IsDown w → IsDown (f w))
    → All IsDown ws
    → All IsDown (update_socket f i ws)
unfolding update_socket socket_at
All-update_socket f i [] h a = tt
All-update_socket f zero (w ∷ ws) h (d, a) = (h w refl d, a)
All-update_socket f (suc i) (w ∷ ws) h (d, a) = (d, All-update_socket f i ws h a)

socket_at-IsDown :
    (i : ℕ) (ws : List WebSocket) {w : WebSocket}
    → socket_at ws i ≡ some w
    → All IsDown ws
    → IsDown w
unfolding socket_at
socket_at-IsDown i [] e a = cc
socket_at-IsDown zero (v ∷ ws) e (d, a) = ground arith
socket_at-IsDown (suc i) (v ∷ ws) e (d, a) = socket_at-IsDown i ws e a

at_connecting-IsStranded :
    (i : ℕ) (o : Option WebSocket) (s : Shared)
    → socket_at s.sockets i ≡ o
    → IsStranded s
    → IsStranded (at_connecting i o s)
unfolding at_connecting
at_connecting-IsStranded i none s e v = v
at_connecting-IsStranded i (some w) s e v = elim (Bool-cases (is_connecting w.ready)) [
  | inr other ↦ rw other v
  | inl waits ↦
      let (_, off) = socket_at-IsDown i s.sockets e v.down in
      let detached : w.detached ≡ true = ground arith in
      rw waits (
        unfold on_opened in
        rw detached (record {
          listening = v.listening;
          down =
              All-update_socket _ i s.sockets
                (λ u at d. (refl, let same : some u ≡ some w = sym at ∙ e in ground arith)) v.down;
          no_timer = v.no_timer;
          no_attempt = v.no_attempt;
        }))
]

at_unclosed-IsStranded :
    (i : ℕ) (o : Option WebSocket) (s : Shared)
    → socket_at s.sockets i ≡ o
    → IsStranded s
    → IsStranded (at_unclosed i o s)
unfolding at_unclosed on_closed
at_unclosed-IsStranded i none s e v = v
at_unclosed-IsStranded i (some w) s e v = elim (Bool-cases (is_closed w.ready)) [
  | inl done ↦ rw (done, at_unclosed) v
  | inr other ↦
      let (_, off) = socket_at-IsDown i s.sockets e v.down in
      let detached : w.detached ≡ true = ground arith in
      rw (other, detached)
        (record {
          listening = v.listening;
          down = All-update_socket _ i s.sockets (λ u at d. (refl, ground arith)) v.down;
          no_timer = v.no_timer;
          no_attempt = v.no_attempt;
        })
]

step-IsStranded :
    (e : Event) (s : Shared) → IsBrowser e → IsStranded s → IsStranded (step false false e s)
unfolding step
step-IsStranded (subscribed r l) s b v = absurd b
step-IsStranded (unsubscribed r l) s b v = absurd b
step-IsStranded connect_ready s b v = ground arith
step-IsStranded reconnect_fires s b v = ground arith
step-IsStranded watchdog_fires s b v = elim (Option-cases s.watchdog) [
  | inl e ↦ rw (e, step) v
  | inr (i, e) ↦
      rw (e, step)
        (record {
          listening = v.listening;
          down = All-update_socket close_if_open i s.sockets (λ u at d. rw (d.0) d) v.down;
          no_timer = v.no_timer;
          no_attempt = v.no_attempt;
        })
]
step-IsStranded (opened i) s b v = at_connecting-IsStranded i (socket_at s.sockets i) s refl v
step-IsStranded (closed_at i) s b v = at_unclosed-IsStranded i (socket_at s.sockets i) s refl v

run-IsStranded :
    (es : List Event) (s : Shared)
    → All IsBrowser es
    → IsStranded s
    → IsStranded (run false false es s)
unfolding run
run-IsStranded [] s b v = v
run-IsStranded (e ∷ es) s (b, bs) v =
    run-IsStranded es (step false false e s) bs (step-IsStranded e s b v)

-- In a browser, a component that subscribes and unsubscribes while the first socket still connects,
-- followed by a component that subscribes, leaves the second without a connection: its socket is
-- closed once it opens, and no event of the browser or of a timer that follows opens another.
pub quick_switch_strands :
    (r r' : String) (l l' : ℕ) (later : List Event)
    → All IsBrowser later
    → IsStranded (run false false later (run false false (quick_switch r l r' l') initial))
quick_switch_strands r r' l l' later b =
    rw (run-quick_switch r r' l l')
      (run-IsStranded later (switched r' l' closed false) b (switched-IsStranded r' l'))
