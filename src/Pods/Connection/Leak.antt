-- ===== src/Pods/Connection/Leak.antt =====
-- A socket that closes late, after the hook has connected again, and the socket that is lost by it.
use pertisk_kube_app.Base.{
  ℕ, zero, suc, ◌≡◌, ◌≢◌, refl, sym, ap, ◌∙◌, Bool, true, false, ◌||◌, inl, inr, Option, none, some,
  List, [], ◌∷◌, arith, if◌then◌else◌, Bool-cases, Option-cases,
}
use pertisk_kube_app.Base.Lists.{All}
use pertisk_kube_app.Socket.{WebSocket, socket_at, safe_close, is_open, is_connecting, is_closed}
use pertisk_kube_app.Pods.Connection.{
  Link, fresh, connect, put, on_open, on_close, disconnect, close_open, Event, effect_ran,
  cleaned_up, timer_fired, orphan_fired, went_stale, opened, closed_at, at_connecting, at_unclosed,
  at_orphans, step, run,
}
use pertisk_kube_app.Socket.Store.{socket_at-update_other, socket_at-append}

-- The socket is open with its handlers, and neither the hook nor its watchdog refers to it.
pub record IsLeaked (i : ℕ) (s : Link) : Type 0 where
  pub socket : WebSocket
  pub there : socket_at s.sockets i ≡ some socket
  pub is_on : is_open socket.ready ≡ true
  pub attached : socket.detached ≡ false
  pub not_current : s.current ≢ some i
  pub not_watched : s.watchdog ≢ some i

module _ (i : ℕ) where
  put-IsLeaked :
      (f : WebSocket → WebSocket) (j : ℕ) (s : Link) → i ≢ j → IsLeaked i s → IsLeaked i (put f j s)
  put-IsLeaked f j s other v = record {
    socket = v.socket;
    there = socket_at-update_other f j s.sockets i other ∙ v.there;
    is_on = v.is_on;
    attached = v.attached;
    not_current = v.not_current;
    not_watched = v.not_watched;
  }

  connect-IsLeaked : (s : Link) → IsLeaked i s → IsLeaked i (connect s)
  unfolding connect
  connect-IsLeaked s v =
      let (kept, below) = socket_at-append s.sockets (fresh ∷ []) i v.socket v.there in
      record {
        socket = v.socket;
        there = kept;
        is_on = v.is_on;
        attached = v.attached;
        not_current = λ e. ground (arith, below);
        not_watched = v.not_watched;
      }

  on_open-IsLeaked :
      (j : ℕ) (w : WebSocket) (s : Link)
      → socket_at s.sockets j ≡ some w
      → is_connecting w.ready ≡ true
      → IsLeaked i s
      → IsLeaked i (on_open j w s)
  unfolding on_open
  on_open-IsLeaked j w s e waits v = elim (Bool-cases (w.detached || s.intentional)) [
    | inl quiet ↦ rw (quiet, on_open) (put-IsLeaked _ j s other v)
    | inr joins ↦
        rw (joins, on_open)
          (record {
            socket = v.socket;
            there = socket_at-update_other _ j s.sockets i other ∙ v.there;
            is_on = v.is_on;
            attached = v.attached;
            not_current = v.not_current;
            not_watched = λ same. other (ground arith);
          })
  ]
    where
      other : i ≢ j
      other same =
          let found : some w ≡ some v.socket =
            sym e ∙ ap (socket_at s.sockets) (sym same) ∙ v.there in
          ground (arith, v.is_on)

  on_close-IsLeaked :
      (j : ℕ) (w : WebSocket) (s : Link) → i ≢ j → IsLeaked i s → IsLeaked i (on_close j w s)
  unfolding on_close
  on_close-IsLeaked j w s other v = elim (Bool-cases (w.detached || s.intentional)) [
    | inl quiet ↦ rw (quiet, on_close) (put-IsLeaked _ j s other v)
    | inr lost ↦
        rw (lost, on_close)
          (record {
            socket = v.socket;
            there = socket_at-update_other _ j s.sockets i other ∙ v.there;
            is_on = v.is_on;
            attached = v.attached;
            not_current = λ e. cc;
            not_watched = λ e. cc;
          })
  ]

  disconnect-IsLeaked :
      (s : Link) → IsLeaked i s → IsLeaked i (record (disconnect s) { mounted = false })
  unfolding disconnect
  disconnect-IsLeaked s v = elim (Option-cases s.current) [
    | inl free ↦
        rw (free, disconnect)
          (record {
            socket = v.socket;
            there = v.there;
            is_on = v.is_on;
            attached = v.attached;
            not_current = λ e. cc;
            not_watched = λ e. cc;
          })
    | inr (j, mine) ↦
        let other = λ (e : i ≡ j). v.not_current (mine ∙ ap some (sym e)) in
        rw (mine, disconnect)
          (record {
            socket = v.socket;
            there = socket_at-update_other safe_close j s.sockets i other ∙ v.there;
            is_on = v.is_on;
            attached = v.attached;
            not_current = λ e. cc;
            not_watched = λ e. cc;
          })
  ]

  at_connecting-IsLeaked :
      (j : ℕ) (o : Option WebSocket) (s : Link)
      → socket_at s.sockets j ≡ o
      → IsLeaked i s
      → IsLeaked i (at_connecting j o s)
  unfolding at_connecting
  at_connecting-IsLeaked j none s e v = v
  at_connecting-IsLeaked j (some w) s e v = elim (Bool-cases (is_connecting w.ready)) [
    | inl waits ↦ rw waits (on_open-IsLeaked j w s e waits v)
    | inr other ↦ rw other v
  ]

  at_unclosed-IsLeaked :
      (j : ℕ) (o : Option WebSocket) (s : Link)
      → i ≢ j
      → IsLeaked i s
      → IsLeaked i (at_unclosed j o s)
  unfolding at_unclosed
  at_unclosed-IsLeaked j none s other v = v
  at_unclosed-IsLeaked j (some w) s other v = elim (Bool-cases (is_closed w.ready)) [
    | inl done ↦ rw done v
    | inr open_yet ↦ rw open_yet (on_close-IsLeaked j w s other v)
  ]

  -- A change of the other fields.
  keep-IsLeaked :
      (s t : Link)
      → s.sockets ≡ t.sockets
      → s.current ≡ t.current
      → s.watchdog ≡ t.watchdog
      → IsLeaked i s
      → IsLeaked i t
  keep-IsLeaked s t sockets current watchdog v = record {
    socket = v.socket;
    there = ap (λ ws. socket_at ws i) (sym sockets) ∙ v.there;
    is_on = v.is_on;
    attached = v.attached;
    not_current = λ e. v.not_current (current ∙ e);
    not_watched = λ e. v.not_watched (watchdog ∙ e);
  }

  at_orphans-IsLeaked : (n : ℕ) (s : Link) → IsLeaked i s → IsLeaked i (at_orphans n s)
  at_orphans-IsLeaked zero s v = v
  at_orphans-IsLeaked (suc n) s v =
      connect-IsLeaked (record s { orphans = n }) (keep-IsLeaked s _ refl refl refl v)

  if-IsLeaked :
      (b : Bool) (s t : Link) → IsLeaked i s → IsLeaked i t → IsLeaked i (if b then s else t)
  if-IsLeaked true s t h k = h
  if-IsLeaked false s t h k = k

  -- Any event but the closing of this socket by the other end.
  abbrev pub IsElsewhere : Event → Type 0
  IsElsewhere (closed_at j) = i ≢ j
  IsElsewhere _ = Unit

  step-IsLeaked : (e : Event) (s : Link) → IsElsewhere e → IsLeaked i s → IsLeaked i (step e s)
  unfolding step
  step-IsLeaked effect_ran s elsewhere v =
      if-IsLeaked s.mounted s _ v (keep-IsLeaked s _ refl refl refl v)
  step-IsLeaked cleaned_up s elsewhere v = if-IsLeaked s.mounted _ s (disconnect-IsLeaked s v) v
  step-IsLeaked timer_fired s elsewhere v =
      if-IsLeaked s.timer _ s
        (connect-IsLeaked (record s { timer = false }) (keep-IsLeaked s _ refl refl refl v)) v
  step-IsLeaked orphan_fired s elsewhere v = at_orphans-IsLeaked s.orphans s v
  step-IsLeaked went_stale s elsewhere v = elim (Option-cases s.watchdog) [
    | inl e ↦ rw (e, step) v
    | inr (j, e) ↦
        rw (e, step)
          (put-IsLeaked close_open j s (λ same. v.not_watched (e ∙ ap some (sym same))) v)
  ]
  step-IsLeaked (opened j) s elsewhere v = at_connecting-IsLeaked j (socket_at s.sockets j) s refl v
  step-IsLeaked (closed_at j) s elsewhere v =
      at_unclosed-IsLeaked j (socket_at s.sockets j) s elsewhere v

  pub run-IsLeaked :
      (es : List Event) (s : Link) → All IsElsewhere es → IsLeaked i s → IsLeaked i (run es s)
  unfolding run
  run-IsLeaked [] s elsewhere v = v
  run-IsLeaked (e ∷ es) s (here, rest) v =
      run-IsLeaked es (step e s) rest (step-IsLeaked e s here v)

-- When a socket with its handlers closes while another one with its handlers is open, and the hook was
-- not cleaned up since it made its last socket, the hook waits to connect once more, and it no
-- longer refers to the open one: that stays open and keeps delivering, whatever happens, the hook's
-- cleanup included, until the other end closes it.
pub late_close_leaks :
    (i j : ℕ) (v w : WebSocket) (s : Link) (later : List Event)
    → i ≢ j
    → socket_at s.sockets i ≡ some v
    → is_open v.ready ≡ true
    → v.detached ≡ false
    → socket_at s.sockets j ≡ some w
    → is_closed w.ready ≡ false
    → w.detached ≡ false
    → s.intentional ≡ false
    → All (IsElsewhere i) later
    → ((step (closed_at j) s).timer ≡ true) × IsLeaked i (run later (step (closed_at j) s))
unfolding step at_unclosed on_close
late_close_leaks i j v w s later other there is_on attached closing unclosed handled meant
      elsewhere =
    let lost : (step (closed_at j) s).timer ≡ true × IsLeaked i (step (closed_at j) s) =
      rw (closing, unclosed, handled, meant)
        (
          refl,
          record {
            socket = v;
            there = socket_at-update_other _ j s.sockets i other ∙ there;
            is_on = is_on;
            attached = attached;
            not_current = λ e. cc;
            not_watched = λ e. cc;
          },
        ) in
    (lost.0, run-IsLeaked i later (step (closed_at j) s) elsewhere lost.1)
