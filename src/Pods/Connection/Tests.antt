-- ===== src/Pods/Connection/Tests.antt =====
-- Runs of the pod hook's connection, and its theorems at concrete runs.
use pertisk_kube_app.Base.{arith, ◌≡◌, true, false, inl, inr, refl, some, List, [], ◌∷◌}
use pertisk_kube_app.Socket.{closing, open_state, socket_at, update_socket, safe_close}
use pertisk_kube_app.Pods.Connection.{
  unconnected, Event, effect_ran, cleaned_up, timer_fired, opened, closed_at, step, run, connect,
  on_open, on_close, disconnect,
}
use pertisk_kube_app.Pods.Connection.Single.{IsSingle}
use pertisk_kube_app.Pods.Connection.Prompt.{IsPromptRun, run-IsSingle}
use pertisk_kube_app.Pods.Connection.Leak.{IsLeaked, late_close_leaks}

abbrev switched : List Event
switched =
    effect_ran
    ∷ timer_fired
    ∷ opened 0
    ∷ cleaned_up
    ∷ closed_at 0
    ∷ effect_ran
    ∷ timer_fired
    ∷ opened 1
    ∷ closed_at 1
    ∷ timer_fired
    ∷ []

reconnects_to : (run switched unconnected).current ≡ some 2
unfolding run step connect on_open on_close disconnect socket_at update_socket safe_close
reconnects_to = refl

switched-IsPromptRun : IsPromptRun switched unconnected
unfolding run step connect on_open on_close disconnect socket_at update_socket safe_close
switched-IsPromptRun = (tt, (tt, (tt, (tt, (inr refl, (tt, (tt, (tt, (inl refl, (tt, tt))))))))))

run-IsSingle_example : IsSingle (run switched unconnected)
run-IsSingle_example = run-IsSingle switched switched-IsPromptRun

-- The hook connects, its cluster is switched, and the new socket opens before the old one has closed.
abbrev reconnected : List Event
reconnected =
    effect_ran ∷ timer_fired ∷ opened 0 ∷ cleaned_up ∷ effect_ran ∷ timer_fired ∷ opened 1 ∷ []

late_close_leaks_example :
    let s = step (closed_at 0) (run reconnected unconnected) in
    (s.timer ≡ true) × IsLeaked 1 (run (timer_fired ∷ opened 2 ∷ cleaned_up ∷ []) s)
unfolding run step connect on_open on_close disconnect socket_at update_socket safe_close
late_close_leaks_example =
    late_close_leaks 1 0
      (record { ready = open_state; detached = false; subscriptions = "pods" ∷ [] })
      (record { ready = closing; detached = false; subscriptions = "pods" ∷ [] })
      (run reconnected unconnected) (timer_fired ∷ opened 2 ∷ cleaned_up ∷ []) (λ e. ground arith)
      refl refl refl refl refl refl refl (tt, (tt, (tt, tt)))
