-- ===== src/Socket/Synced.antt =====
-- In every run of the shared socket its subscriptions are the resources with listeners.
use pertisk_kube_app.Base.{
  ℕ, String, ◌≡◌, refl, sym, ap, subst, ◌∙◌, Bool, true, false, not, ◌&&◌, ◌||◌, inl, inr, Option,
  none, some, [], ◌∷◌, arith, eq_iff, if◌then◌else◌, ◌==◌, Bool-cases, ℕ_discrete,
}
use pertisk_kube_app.Base.Text.{member}
use pertisk_kube_app.Base.Distinct.{member-append, member-filter}
use pertisk_kube_app.Socket.Registry.{Listeners, has_resource, add_listener, remove_listener}
use pertisk_kube_app.Socket.Store.{socket_at-update_other, socket_at-update_origin}
use pertisk_kube_app.Socket.Subscriptions.{
  Agrees, Synced, has-add_listener, has-remove_listener, Synced-idle, Synced-map, Synced-send,
  if-Synced, Synced-open_shared,
}
use pertisk_kube_app.Socket.{
  Ready, connecting, open_state, closing, closed, WebSocket, Shared, socket_at, update_socket,
  is_open, is_connecting, current_is, open_shared, on_current, send_subscribe, send_unsubscribe,
  subscribe, unsubscribe, drop_current, clear_timers, safe_close, is_empty, on_opened, on_closed,
}

open_not_connecting : (r : Ready) → is_open r ≡ true → is_connecting r ≡ true → ⊥
open_not_connecting connecting h k = cc
open_not_connecting open_state h k = cc
open_not_connecting closing h k = cc
open_not_connecting closed h k = cc

-- The listeners change, and the open current socket is told of it, or has nothing to be told of.
Synced-told :
    (first : Bool) (f : WebSocket → WebSocket) (m m' : Listeners) (s : Shared)
    → (first ≡ true → (w : WebSocket) → is_open w.ready ≡ true → Agrees m w → Agrees m' (f w))
    → (first ≡ false → (r : String) → has_resource r m' ≡ has_resource r m)
    → Synced m s
    → Synced m' (if first && current_is is_open s then on_current f s else s)
Synced-told true f m m' s told same h = elim (Bool-cases (current_is is_open s)) [
  | inl e ↦ rw e (Synced-send f m m' s e (told refl) h)
  | inr e ↦ rw e (Synced-idle m m' s e h)
]
Synced-told false f m m' s told same h = Synced-map m m' s (same refl) h

pub subscribe-Synced :
    (desktop polling : Bool) (r : String) (l : ℕ) (s : Shared)
    → Synced s.listeners s
    → Synced (add_listener r l s.listeners) (subscribe desktop polling r l s)
unfolding subscribe Synced
subscribe-Synced desktop polling r l s h =
    Synced-told (not (has_resource r s.listeners)) (send_subscribe r) s.listeners
      (add_listener r l s.listeners)
      (open_shared desktop polling (record s { listeners = add_listener r l s.listeners }))
      (λ new w is_on a. record {
        while_open = λ e q.
            member-append q w.subscriptions (r ∷ [])
            ∙ ground (arith, a.while_open is_on q, has-add_listener r l s.listeners q);
        at_first = λ e. absurd (open_not_connecting w.ready is_on e);
      })
      (λ old q. ground (arith, has-add_listener r l s.listeners q, eq_iff r q))
      (Synced-open_shared desktop polling s.listeners
        (record s { listeners = add_listener r l s.listeners }) h)

pub Synced-update :
    (f : WebSocket → WebSocket) (j : ℕ) (m : Listeners) (s t : Shared)
    → t.current ≡ s.current
    → t.sockets ≡ update_socket f j s.sockets
    → ((v : WebSocket) → socket_at s.sockets j ≡ some v → Agrees m v → Agrees m (f v))
    → Synced m s
    → Synced m t
unfolding Synced
Synced-update f j m s t current sockets g h i w cur at = elim (ℕ_discrete i j) [
  | no other ↦ h i w (sym current ∙ cur) (
      sym (socket_at-update_other f j s.sockets i other)
      ∙ ap (λ ws. socket_at ws i) (sym sockets)
      ∙ at)
  | yes same ↦
      let (v, there, made) = socket_at-update_origin f j s.sockets w (
        ap (socket_at (update_socket f j s.sockets)) (sym same)
        ∙ ap (λ ws. socket_at ws i) (sym sockets)
        ∙ at) in
      subst (Agrees m) (sym made) (g v there (h j v (sym current ∙ cur ∙ ap some same) there))
]

pub Agrees-over :
    (m : Listeners) (w : WebSocket)
    → is_open w.ready ≡ false
    → is_connecting w.ready ≡ false
    → Agrees m w
Agrees-over m w shut off = record { while_open = λ e. cc; at_first = λ e. cc }

drop_current-Synced : (m : Listeners) (s : Shared) → Synced m (drop_current s)
unfolding drop_current Synced
drop_current-Synced m s = at_current s.current refl
  where
    at_current :
        (o : Option ℕ)
        → s.current ≡ o
        → Synced m (elim o as (λ _. Shared) [
          | none ↦ s
          | some i ↦ record (clear_timers (record s { closing_intentional = true })) {
            sockets = update_socket safe_close i s.sockets;
            current = none;
          }
        ])
    at_current none e i w cur at = cc
    at_current (some j) e i w cur at = cc

if_true-Synced :
    (b : Bool) (m : Listeners) (s t : Shared)
    → b ≡ true
    → Synced m s
    → Synced m (if b then s else t)
if_true-Synced true m s t e h = h
if_true-Synced false m s t e h = cc

pub unsubscribe-Synced :
    (r : String) (l : ℕ) (s : Shared)
    → Synced s.listeners s
    → has_resource r s.listeners ≡ true
    → Synced (remove_listener r l s.listeners) (unsubscribe r l s)
unfolding unsubscribe Synced
unsubscribe-Synced r l s h there =
    if_true-Synced (has_resource r s.listeners) m'
      (if is_empty s₂.listeners then drop_current s₂ else s₂) s there
      (if-Synced (is_empty s₂.listeners) m' (drop_current s₂) s₂ (drop_current-Synced m' s₂) (
        Synced-told (not (has_resource r m')) (send_unsubscribe r) s.listeners m'
          (record s { listeners = m' })
          (λ gone w is_on a. record {
            while_open = λ e q.
                member-filter (λ p. not (member p (r ∷ []))) w.subscriptions q
                ∙ elim (Bool-cases (r == q)) [
                  | inl same ↦ ground (arith, eq_iff r q)
                  | inr other ↦
                      ground
                        (arith, a.while_open is_on q, has-remove_listener r l s.listeners q other)
                ];
            at_first = λ e. absurd (open_not_connecting w.ready is_on e);
          })
          (λ stays q. elim (Bool-cases (r == q)) [
            | inl same ↦ ground (arith, eq_iff r q)
            | inr other ↦ has-remove_listener r l s.listeners q other
          ])
          h))
  where
    m' : Listeners
    m' = remove_listener r l s.listeners

    s₁ : Shared
    s₁ = record s { listeners = m' }

    s₂ : Shared
    s₂ =
        if not (has_resource r m') && current_is is_open s₁
        then on_current (send_unsubscribe r) s₁
        else s₁

pub on_opened-Synced :
    (i : ℕ) (w : WebSocket) (s : Shared)
    → socket_at s.sockets i ≡ some w
    → is_connecting w.ready ≡ true
    → Synced s.listeners s
    → Synced s.listeners (on_opened i w s)
unfolding on_opened
on_opened-Synced i w s there waits h = elim (Bool-cases (w.detached || s.closing_intentional)) [
  | inl e ↦
      rw (e, on_opened)
        (Synced-update _ i s.listeners s _ refl refl (λ v at a. Agrees-over s.listeners _ refl refl)
          h)
  | inr e ↦
      rw (e, on_opened)
        (Synced-update _ i s.listeners s _ refl refl
          (λ v at a.
            let same : some v ≡ some w = sym at ∙ there in
            let none_yet : v.subscriptions ≡ [] = a.at_first (ground arith) in
            record { while_open = λ o r. rw none_yet refl; at_first = λ e. cc })
          h)
]

pub on_closed-Synced :
    (i : ℕ) (w : WebSocket) (s : Shared)
    → Synced s.listeners s
    → Synced s.listeners (on_closed i w s)
unfolding on_closed
on_closed-Synced i w s h = if-Synced w.detached s.listeners _ _ (over _ refl refl) (
    if-Synced s.closing_intentional s.listeners _ _ (over _ refl refl)
      (if-Synced (is_empty s.listeners) s.listeners _ _ (over _ refl refl) (over _ refl refl)))
  where
    over :
        (t : Shared)
        → t.current ≡ s.current
        → t.sockets ≡ update_socket (λ v. record v { ready = closed }) i s.sockets
        → Synced s.listeners t
    over t c e =
        Synced-update (λ v. record v { ready = closed }) i s.listeners s t c e
          (λ v at a. Agrees-over s.listeners (record v { ready = closed }) refl refl) h
