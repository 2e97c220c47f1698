-- ===== src/Socket/Subscriptions.antt =====
-- The subscriptions that the server has of the shared socket are the resources with listeners.
use pertisk_kube_app.Base.{
  ℕ, String, ◌≡◌, refl, sym, ap, subst, ◌∙◌, Bool, true, false, not, ◌||◌, inl, inr, Option, none,
  some, List, [], ◌∷◌, ◌++◌, arith, eq_iff, eqb, if◌then◌else◌, ◌==◌, Bool-cases,
}
use pertisk_kube_app.Base.Lists.{length, filter}
use pertisk_kube_app.Base.Text.{member}
use pertisk_kube_app.Socket.Registry.{Listeners, has_resource, add_listener, remove_listener}
use pertisk_kube_app.Socket.Store.{socket_at-update_origin, socket_at-last}
use pertisk_kube_app.Socket.{
  Ready, connecting, WebSocket, Shared, socket_at, update_socket, is_open, is_connecting,
  current_is, create_socket, open_shared, on_current,
}

pub has-add_listener :
    (r : String) (l : ℕ) (m : Listeners) (q : String)
    → has_resource q (add_listener r l m) ≡ (has_resource q m || r == q)
unfolding add_listener
has-add_listener r l [] q = ground arith
has-add_listener r l ((p, ks) ∷ m) q = elim (Bool-cases (p == r)) [
  | inl e ↦ rw (e, add_listener) (ground (arith, eq_iff p r, eq_iff p q, eq_iff r q))
  | inr e ↦ rw (e, add_listener) (ground (arith, has-add_listener r l m q))
]

pub has-remove_listener :
    (r : String) (l : ℕ) (m : Listeners) (q : String)
    → (r == q) ≡ false
    → has_resource q (remove_listener r l m) ≡ has_resource q m
unfolding remove_listener
has-remove_listener r l [] q h = refl
has-remove_listener r l ((p, ks) ∷ m) q h = elim (Bool-cases (p == r)) [
  | inl e ↦ rw (e, remove_listener) (kept (filter (λ k. not (eqb k l)) ks) (other e))
  | inr e ↦ rw (e, remove_listener) (ap (λ b. p == q || b) (has-remove_listener r l m q h))
]
  where
    other : (p == r) ≡ true → (p == q) ≡ false
    other e = ground (arith, eq_iff p r, eq_iff p q, eq_iff r q)

    kept :
        (rest : List ℕ)
        → (p == q) ≡ false
        → has_resource q (elim rest as (λ _. Listeners) [ [] ↦ m | k ∷ more ↦ (p, k ∷ more) ∷ m ])
          ≡ (p == q || has_resource q m)
    kept [] apart = ground arith
    kept (k ∷ more) apart = refl

-- An open socket has the resources of the map subscribed, and one that still connects has none.
pub record Agrees (m : Listeners) (w : WebSocket) : Type 0 where
  pub while_open :
      is_open w.ready ≡ true → (r : String) → member r w.subscriptions ≡ has_resource r m
  pub at_first : is_connecting w.ready ≡ true → w.subscriptions ≡ []

unfoldable pub Synced : Listeners → Shared → Type 0
Synced m s =
    (i : ℕ) (w : WebSocket) → s.current ≡ some i → socket_at s.sockets i ≡ some w → Agrees m w

current_is-at :
    (test : Ready → Bool) (s : Shared) (i : ℕ) (w : WebSocket)
    → s.current ≡ some i
    → socket_at s.sockets i ≡ some w
    → current_is test s ≡ test w.ready
current_is-at test s i w cur at = rw cur (rw at refl)

-- Where the current socket is not open, the map does not matter.
pub Synced-idle :
    (m m' : Listeners) (s : Shared) → current_is is_open s ≡ false → Synced m s → Synced m' s
unfolding Synced
Synced-idle m m' s idle h i w cur at =
    let shut : is_open w.ready ≡ false = sym (current_is-at is_open s i w cur at) ∙ idle in
    record { while_open = λ e. cc; at_first = (h i w cur at).at_first }

pub Synced-map :
    (m m' : Listeners) (s : Shared)
    → ((r : String) → has_resource r m' ≡ has_resource r m)
    → Synced m s
    → Synced m' s
unfolding Synced
Synced-map m m' s e h i w cur at = record {
  while_open = λ o r. (h i w cur at).while_open o r ∙ sym (e r);
  at_first = (h i w cur at).at_first;
}

-- A message on the open current socket.
pub Synced-send :
    (f : WebSocket → WebSocket) (m m' : Listeners) (s : Shared)
    → current_is is_open s ≡ true
    → ((w : WebSocket) → is_open w.ready ≡ true → Agrees m w → Agrees m' (f w))
    → Synced m s
    → Synced m' (on_current f s)
unfolding Synced
Synced-send f m m' s is_on g h = at_current s.current refl
  where
    at_current :
        (o : Option ℕ)
        → s.current ≡ o
        → Synced m' (elim o as (λ _. Shared) [
          | none ↦ s
          | some i ↦ record s { sockets = update_socket f i s.sockets }
        ])
    at_current none e i w cur at = cc
    at_current (some j) e i w cur at =
        let same : j ≡ i = ground arith in
        let (v, there, made) =
          socket_at-update_origin f j s.sockets w
            (ap (socket_at (update_socket f j s.sockets)) same ∙ at) in
        let open_there : is_open v.ready ≡ true =
          sym (current_is-at is_open s j v e there) ∙ is_on in
        subst (Agrees m') (sym made) (g v open_there (h j v e there))

pub Synced-create_socket : (m : Listeners) (s : Shared) → Synced m s → Synced m (create_socket s)
unfolding Synced create_socket
Synced-create_socket m s h = for_listeners s.listeners
  where
    for_listeners :
        (ls : Listeners)
        → Synced m (elim ls as (λ _. Shared) [
          | [] ↦ s
          | _ ∷ _ ↦ record s {
            sockets =
                s.sockets
                ++ record { ready = connecting; detached = false; subscriptions = [] } ∷ [];
            current = some (length s.sockets);
          }
        ])
    for_listeners [] i w cur at = h i w cur at
    for_listeners (_ ∷ _) i w cur at =
        let same : i ≡ length s.sockets = ground arith in
        let made =
          socket_at-last s.sockets
            (record { ready = connecting; detached = false; subscriptions = [] }) w
            (ap
                (socket_at (
                  s.sockets
                  ++ record { ready = connecting; detached = false; subscriptions = [] } ∷ []))
                (sym same)
              ∙ at) in
        subst (Agrees m) (sym made) (record { while_open = λ e. cc; at_first = λ e. refl })

pub if-Synced :
    (b : Bool) (m : Listeners) (s t : Shared)
    → Synced m s
    → Synced m t
    → Synced m (if b then s else t)
if-Synced true m s t h k = h
if-Synced false m s t h k = k

pub Synced-open_shared :
    (desktop polling : Bool) (m : Listeners) (s : Shared)
    → Synced m s
    → Synced m (open_shared desktop polling s)
unfolding open_shared Synced
Synced-open_shared desktop polling m s h = if-Synced polling m s _ h (
    if-Synced (current_is (λ r. is_open r || is_connecting r) s) m s _ h (
      if-Synced s.in_flight m s _ h (
        if-Synced desktop m (record s { in_flight = true }) (create_socket s) h
          (Synced-create_socket m s h))))
