-- ===== src/Socket/Kept.antt =====
-- Which operations of the shared socket keep its listeners.
use pertisk_kube_app.Base.{
  ℕ, String, ◌≡◌, refl, ◌∙◌, Bool, true, false, not, ◌&&◌, ◌||◌, inl, inr, some, [], ◌∷◌, ◌++◌,
  if◌then◌else◌, Option-cases,
}
use pertisk_kube_app.Base.Lists.{length}
use pertisk_kube_app.Socket.Registry.{Listeners, has_resource, add_listener, remove_listener}
use pertisk_kube_app.Socket.{
  connecting, WebSocket, Shared, is_open, is_connecting, current_is, create_socket, open_shared,
  on_current, send_subscribe, send_unsubscribe, subscribe, unsubscribe, drop_current, clear_timers,
  is_empty, on_opened, on_closed,
}

-- Nothing but a subscription and its end changes the listeners.
pub if-listeners :
    (b : Bool) (s t : Shared) (m : Listeners)
    → s.listeners ≡ m
    → t.listeners ≡ m
    → (if b then s else t).listeners ≡ m
if-listeners true s t m e f = e
if-listeners false s t m e f = f

pub listeners-on_current :
    (f : WebSocket → WebSocket) (s : Shared) → (on_current f s).listeners ≡ s.listeners
listeners-on_current f s = elim (Option-cases s.current) [ inl e ↦ rw e | inr (i, e) ↦ rw e ]

pub listeners-create_socket : (s : Shared) → (create_socket s).listeners ≡ s.listeners
unfolding create_socket
listeners-create_socket s = for_listeners s.listeners
  where
    for_listeners :
        (ls : Listeners)
        → (elim ls as (λ _. Shared) [
          | [] ↦ s
          | _ ∷ _ ↦ record s {
            sockets =
                s.sockets
                ++ record { ready = connecting; detached = false; subscriptions = [] } ∷ [];
            current = some (length s.sockets);
          }
        ]).listeners
          ≡ s.listeners
    for_listeners [] = refl
    for_listeners (_ ∷ _) = refl

listeners-drop_current : (s : Shared) → (drop_current s).listeners ≡ s.listeners
unfolding drop_current clear_timers
listeners-drop_current s = elim (Option-cases s.current) [
  | inl e ↦ rw (e, drop_current)
  | inr (i, e) ↦ rw (e, drop_current)
]

pub listeners-open_shared :
    (desktop polling : Bool) (s : Shared) → (open_shared desktop polling s).listeners ≡ s.listeners
unfolding open_shared
listeners-open_shared desktop polling s = if-listeners polling s _ s.listeners refl (
    if-listeners (current_is (λ r. is_open r || is_connecting r) s) s _ s.listeners refl (
      if-listeners s.in_flight s _ s.listeners refl
        (if-listeners desktop _ _ s.listeners refl (listeners-create_socket s))))

pub listeners-subscribe :
    (desktop polling : Bool) (r : String) (l : ℕ) (s : Shared)
    → (subscribe desktop polling r l s).listeners ≡ add_listener r l s.listeners
unfolding subscribe
listeners-subscribe desktop polling r l s =
    let s₂ = open_shared desktop polling (record s { listeners = add_listener r l s.listeners }) in
    let kept =
      listeners-open_shared desktop polling
        (record s { listeners = add_listener r l s.listeners }) in
    if-listeners (not (has_resource r s.listeners) && current_is is_open s₂)
      (on_current (send_subscribe r) s₂) s₂ (add_listener r l s.listeners)
      (listeners-on_current (send_subscribe r) s₂ ∙ kept) kept

pub listeners-unsubscribe :
    (r : String) (l : ℕ) (s : Shared)
    → has_resource r s.listeners ≡ true
    → (unsubscribe r l s).listeners ≡ remove_listener r l s.listeners
unfolding unsubscribe
listeners-unsubscribe r l s there =
    if_true-listeners (has_resource r s.listeners)
      (if is_empty s₂.listeners then drop_current s₂ else s₂) s m' there
      (if-listeners (is_empty s₂.listeners) (drop_current s₂) s₂ m'
        (listeners-drop_current s₂ ∙ kept) kept)
  where
    if_true-listeners :
        (b : Bool) (s t : Shared) (m : Listeners)
        → b ≡ true
        → s.listeners ≡ m
        → (if b then s else t).listeners ≡ m
    if_true-listeners true s t m e f = f
    if_true-listeners false s t m e f = cc

    m' : Listeners
    m' = remove_listener r l s.listeners

    s₁ : Shared
    s₁ = record s { listeners = m' }

    s₂ : Shared
    s₂ =
        if not (has_resource r m') && current_is is_open s₁
        then on_current (send_unsubscribe r) s₁
        else s₁

    kept : s₂.listeners ≡ m'
    kept =
        if-listeners (not (has_resource r m') && current_is is_open s₁)
          (on_current (send_unsubscribe r) s₁) s₁ m' (listeners-on_current (send_unsubscribe r) s₁)
          refl

pub listeners-on_opened :
    (i : ℕ) (w : WebSocket) (s : Shared) → (on_opened i w s).listeners ≡ s.listeners
unfolding on_opened clear_timers
listeners-on_opened i w s =
    if-listeners (w.detached || s.closing_intentional) _ _ s.listeners refl refl

pub listeners-on_closed :
    (i : ℕ) (w : WebSocket) (s : Shared) → (on_closed i w s).listeners ≡ s.listeners
unfolding on_closed clear_timers
listeners-on_closed i w s = if-listeners w.detached _ _ s.listeners refl (
    if-listeners s.closing_intentional _ _ s.listeners refl
      (if-listeners (is_empty s.listeners) _ _ s.listeners refl refl))
