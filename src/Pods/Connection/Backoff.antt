-- ===== src/Pods/Connection/Backoff.antt =====
-- The waits before a reconnection.
use pertisk_kube_app.Base.{ℕ, ◌+◌, ◌≤◌, arith}
use pertisk_kube_app.Socket.{reconnect_delay}
use pertisk_kube_app.Pods.Connection.{backoff}

-- The waits before a reconnection: the pod hook's is at least its interval and at most 5480 ms more, the
-- shared socket's lies between 1200 and 6200 ms, and neither is shorter five attempts later.
backoff-bounds :
    (interval attempts : ℕ)
    → (interval ≤ backoff interval attempts)
      × (backoff interval attempts ≤ interval + 5480)
      × (1200 ≤ reconnect_delay attempts)
      × (reconnect_delay attempts ≤ 6200)
      × (backoff interval attempts ≤ backoff interval (attempts + 5))
      × (reconnect_delay attempts ≤ reconnect_delay (attempts + 5))
unfolding backoff reconnect_delay
backoff-bounds interval attempts =
    (omega arith, omega arith, omega arith, omega arith, omega arith, omega arith)
