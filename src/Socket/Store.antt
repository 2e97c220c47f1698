-- ===== src/Socket/Store.antt =====
-- What an update of the store of sockets, and a new socket, do to the socket at an index.
use pertisk_kube_app.Base.{
  ℕ, zero, suc, ◌≡◌, ◌≢◌, ◌<◌, refl, ap, sym, ◌⊎◌, inl, inr, some, List, [], ◌∷◌, ◌++◌, arith,
}
use pertisk_kube_app.Base.Lists.{length}
use pertisk_kube_app.Socket.{WebSocket, socket_at, update_socket}

some_injective {ℓ} : {A : Type ℓ} (x y : A) → some x ≡ some y → x ≡ y
some_injective x y e = ground arith

pub socket_at-update_other :
    (f : WebSocket → WebSocket) (j : ℕ) (ws : List WebSocket) (i : ℕ)
    → i ≢ j
    → socket_at (update_socket f j ws) i ≡ socket_at ws i
unfolding socket_at update_socket
socket_at-update_other f j [] i h = refl
socket_at-update_other f zero (w ∷ ws) zero h = absurd (h refl)
socket_at-update_other f zero (w ∷ ws) (suc i) h = refl
socket_at-update_other f (suc j) (w ∷ ws) zero h = refl
socket_at-update_other f (suc j) (w ∷ ws) (suc i) h =
    socket_at-update_other f j ws i (λ e. h (ap suc e))

pub socket_at-update_same :
    (f : WebSocket → WebSocket) (j : ℕ) (ws : List WebSocket) (w : WebSocket)
    → socket_at ws j ≡ some w
    → socket_at (update_socket f j ws) j ≡ some (f w)
unfolding socket_at update_socket
socket_at-update_same f j [] w h = cc
socket_at-update_same f zero (v ∷ ws) w h = ap (λ u. some (f u)) (some_injective v w h)
socket_at-update_same f (suc j) (v ∷ ws) w h = socket_at-update_same f j ws w h

pub socket_at-update_origin :
    (f : WebSocket → WebSocket) (j : ℕ) (ws : List WebSocket) (w : WebSocket)
    → socket_at (update_socket f j ws) j ≡ some w
    → (v : WebSocket) × (socket_at ws j ≡ some v) × (w ≡ f v)
unfolding socket_at update_socket
socket_at-update_origin f j [] w h = cc
socket_at-update_origin f zero (v ∷ ws) w h = (v, refl, sym (some_injective (f v) w h))
socket_at-update_origin f (suc j) (v ∷ ws) w h = socket_at-update_origin f j ws w h

pub socket_at-concat :
    (ws : List WebSocket) (x : WebSocket) (i : ℕ) (w : WebSocket)
    → socket_at (ws ++ x ∷ []) i ≡ some w
    → (socket_at ws i ≡ some w) ⊎ (i ≡ length ws)
unfolding socket_at
socket_at-concat [] x zero w h = inr refl
socket_at-concat [] x (suc i) w h = cc
socket_at-concat (v ∷ ws) x zero w h = inl h
socket_at-concat (v ∷ ws) x (suc i) w h = elim (socket_at-concat ws x i w h) [
  | inl e ↦ inl e
  | inr e ↦ inr (ap suc e)
]

pub socket_at-append :
    (ws vs : List WebSocket) (i : ℕ) (w : WebSocket)
    → socket_at ws i ≡ some w
    → (socket_at (ws ++ vs) i ≡ some w) × (i < length ws)
unfolding socket_at
socket_at-append [] vs i w h = cc
socket_at-append (v ∷ ws) vs zero w h = (h, omega arith)
socket_at-append (v ∷ ws) vs (suc i) w h =
    let (e, l) = socket_at-append ws vs i w h in (e, omega (arith, l))

pub socket_at-last :
    (ws : List WebSocket) (x w : WebSocket) → socket_at (ws ++ x ∷ []) (length ws) ≡ some w → w ≡ x
unfolding socket_at
socket_at-last [] x w h = sym (some_injective x w h)
socket_at-last (v ∷ ws) x w h = socket_at-last ws x w h
