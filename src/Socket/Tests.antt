-- ===== src/Socket/Tests.antt =====
-- Runs of the shared socket's model, and its theorems at concrete subscriptions.
use pertisk_kube_app.Base.{◌≡◌, refl, true, false, List, [], ◌∷◌}
use pertisk_kube_app.Socket.{
  subscribe, socket_at, initial, Event, subscribed, opened, closed_at, reconnect_fires, step, run,
  current_is, is_open, WebSocket, open_state,
}
use pertisk_kube_app.Socket.Registry.{add_listener, has_resource}
use pertisk_kube_app.Socket.Trace.{subscriptions-run}
use pertisk_kube_app.Base.Text.{member}
use pertisk_kube_app.Socket.Stranded.{IsStranded, quick_switch, quick_switch_strands}

abbrev afterwards : List Event
afterwards = opened 0 ∷ closed_at 0 ∷ reconnect_fires ∷ []

quick_switch_strands_example :
    IsStranded
      (run false false afterwards (run false false (quick_switch "pods" 0 "nodes" 1) initial))
quick_switch_strands_example =
    quick_switch_strands "pods" "nodes" 0 1 afterwards (tt, (tt, (tt, tt)))

-- A subscriber whose connection breaks gets another.
reconnects :
    current_is is_open (
      run false false
        (subscribed "pods" 0 ∷ opened 0 ∷ closed_at 0 ∷ reconnect_fires ∷ opened 1 ∷ [])
        initial)
    ≡ true
unfolding run step socket_at subscribe add_listener
reconnects = refl

abbrev open_pods : WebSocket
open_pods = record { ready = open_state; detached = false; subscriptions = "pods" ∷ [] }

subscriptions-run_example :
    member "pods" open_pods.subscriptions
    ≡ has_resource "pods" (run false false (subscribed "pods" 0 ∷ opened 0 ∷ []) initial).listeners
unfolding run step socket_at subscribe add_listener
subscriptions-run_example =
    subscriptions-run false false (subscribed "pods" 0 ∷ opened 0 ∷ []) 0 open_pods "pods" refl refl
      refl
