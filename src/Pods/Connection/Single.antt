-- ===== src/Pods/Connection/Single.antt =====
-- A single live socket: what holds where a socket that the hook has let go of closes before the hook
-- connects again.
use pertisk_kube_app.Base.{
  ℕ, ◌≡◌, refl, sym, ap, subst, ◌∙◌, Bool, true, false, not, ◌&&◌, ◌||◌, ◌⊎◌, inl, inr, Option,
  none, some, List, [], ◌∷◌, arith, Bool-cases, Option-cases, ℕ_discrete,
}
use pertisk_kube_app.Socket.{
  open_state, WebSocket, socket_at, update_socket, close, safe_close, is_open, is_connecting,
}
use pertisk_kube_app.Pods.Connection.{
  Link, unconnected, fresh, connect, put, on_open, on_close, disconnect, Event, closed_at,
}
use pertisk_kube_app.Socket.Store.{
  socket_at-update_other, socket_at-update_origin, socket_at-concat,
}

-- A socket that delivers messages, or will.
abbrev pub is_live : WebSocket → Bool
is_live w = not w.detached && (is_open w.ready || is_connecting w.ready)

pub record IsSingle (s : Link) : Type 0 where
  pub live :
      (i : ℕ) (w : WebSocket)
      → socket_at s.sockets i ≡ some w
      → is_live w ≡ true
      → s.current ≡ some i
  pub waits : s.timer ≡ true → s.current ≡ none
  pub no_orphan : s.orphans ≡ 0
  pub let_go : s.intentional ≡ true → s.current ≡ none
  pub unmounted : s.mounted ≡ false → (s.current ≡ none) × (s.timer ≡ false)

-- A socket that closes is the current one, or the hook has let it go and has not connected since.
abbrev pub IsPrompt : Event → Link → Type 0
IsPrompt (closed_at i) s = (s.current ≡ some i) ⊎ (s.intentional ≡ true)
IsPrompt _ s = Unit

pub IsSingle-unconnected : IsSingle unconnected
unfolding socket_at
IsSingle-unconnected = record {
  live = λ i w e l. cc;
  waits = λ h. refl;
  no_orphan = refl;
  let_go = λ h. refl;
  unmounted = λ h. (refl, refl);
}

Live : List WebSocket → Option ℕ → Type 0
Live ws current =
    (i : ℕ) (w : WebSocket) → socket_at ws i ≡ some w → is_live w ≡ true → current ≡ some i

-- An update that does not make the socket live keeps the live sockets.
Live-update :
    (f : WebSocket → WebSocket) (j : ℕ) (ws : List WebSocket) (current : Option ℕ)
    → ((v : WebSocket) → socket_at ws j ≡ some v → is_live (f v) ≡ true → is_live v ≡ true)
    → Live ws current
    → Live (update_socket f j ws) current
unfolding Live
Live-update f j ws current tame h i w e l = elim (ℕ_discrete i j) [
  | no other ↦ h i w (sym (socket_at-update_other f j ws i other) ∙ e) l
  | yes same ↦
      let (v, at, made) =
        socket_at-update_origin f j ws w (ap (socket_at (update_socket f j ws)) (sym same) ∙ e) in
      subst (λ k. current ≡ some k) (sym same) (h j v at (tame v at (ap is_live (sym made) ∙ l)))
]

-- The end of the current socket leaves no live one.
Live-end :
    (f : WebSocket → WebSocket) (j : ℕ) (ws : List WebSocket)
    → ((v : WebSocket) → is_live (f v) ≡ false)
    → Live ws (some j)
    → Live (update_socket f j ws) none
unfolding Live
Live-end f j ws ends h i w e l = elim (ℕ_discrete i j) [
  | no other ↦
      let old = h i w (sym (socket_at-update_other f j ws i other) ∙ e) l in
      absurd (other (ground arith))
  | yes same ↦
      let (v, at, made) =
        socket_at-update_origin f j ws w (ap (socket_at (update_socket f j ws)) (sym same) ∙ e) in
      let dead = ap is_live made ∙ ends v in cc
]

ends-safe_close : (w : WebSocket) → is_live (safe_close w) ≡ false
unfolding safe_close close
ends-safe_close w = ground arith

pub put-IsSingle :
    (f : WebSocket → WebSocket) (i : ℕ) (s : Link)
    → ((v : WebSocket) → socket_at s.sockets i ≡ some v → is_live (f v) ≡ true → is_live v ≡ true)
    → IsSingle s
    → IsSingle (put f i s)
unfolding Live
put-IsSingle f i s tame v = record {
  live = Live-update f i s.sockets s.current tame v.live;
  waits = v.waits;
  no_orphan = v.no_orphan;
  let_go = v.let_go;
  unmounted = v.unmounted;
}

pub connect-IsSingle :
    (s : Link)
    → IsSingle s
    → s.timer ≡ false
    → s.current ≡ none
    → s.mounted ≡ true
    → IsSingle (connect s)
unfolding connect
connect-IsSingle s v idle free mounted = record {
  live = λ i w e l. elim (socket_at-concat s.sockets fresh i w e) [
    | inl old ↦ let kept = v.live i w old l in cc
    | inr new ↦ ap some (sym new)
  ];
  waits = λ h. cc;
  no_orphan = v.no_orphan;
  let_go = λ h. cc;
  unmounted = λ h. cc;
}

pub on_close-IsSingle :
    (i : ℕ) (w : WebSocket) (s : Link)
    → IsSingle s
    → (s.current ≡ some i) ⊎ (s.intentional ≡ true)
    → IsSingle (on_close i w s)
unfolding on_close Live
on_close-IsSingle i w s v prompt = elim (Bool-cases (w.detached || s.intentional)) [
  | inl quiet ↦ rw (quiet, on_close) (put-IsSingle _ i s (λ u at l. ground arith) v)
  | inr lost ↦
      let mine : s.current ≡ some i = ground arith in
      let idle : s.timer ≡ false = ground (arith, v.waits) in
      rw (lost, on_close)
        (record {
          live = Live-end _ i s.sockets (λ u. ground arith) (subst (Live s.sockets) mine v.live);
          waits = λ h. refl;
          no_orphan = rw (idle, v.no_orphan);
          let_go = λ h. refl;
          unmounted = λ h. let free = (v.unmounted h).0 in cc;
        })
]

pub on_open-IsSingle :
    (i : ℕ) (w : WebSocket) (s : Link)
    → IsSingle s
    → socket_at s.sockets i ≡ some w
    → is_connecting w.ready ≡ true
    → IsSingle (on_open i w s)
unfolding on_open
on_open-IsSingle i w s v e waits = elim (Bool-cases (w.detached || s.intentional)) [
  | inl quiet ↦ rw (quiet, on_open) (put-IsSingle _ i s (λ u at l. ground arith) v)
  | inr joins ↦
      let single =
        put-IsSingle (λ u. record u { ready = open_state; subscriptions = "pods" ∷ [] }) i s
          (λ u at l. let same : some u ≡ some w = sym at ∙ e in ground arith) v in
      rw (joins, on_open)
        (record {
          live = single.live;
          waits = single.waits;
          no_orphan = single.no_orphan;
          let_go = single.let_go;
          unmounted = single.unmounted;
        })
]

pub disconnect-IsSingle :
    (s : Link) → IsSingle s → IsSingle (record (disconnect s) { mounted = false })
unfolding disconnect Live
disconnect-IsSingle s v = elim (Option-cases s.current) [
  | inl free ↦
      rw (free, disconnect)
        (record {
          live = subst (Live s.sockets) free v.live;
          waits = λ h. cc;
          no_orphan = v.no_orphan;
          let_go = λ h. refl;
          unmounted = λ h. (refl, refl);
        })
  | inr (i, mine) ↦
      rw (mine, disconnect)
        (record {
          live =
              Live-end safe_close i s.sockets ends-safe_close (subst (Live s.sockets) mine v.live);
          waits = λ h. cc;
          no_orphan = v.no_orphan;
          let_go = λ h. refl;
          unmounted = λ h. (refl, refl);
        })
]
