-- ===== src/Display/Ages.antt =====
-- What a compact age says of the seconds that it stands for.
use pertisk_kube_app.Base.{ℕ, ◌+◌, ◌*◌, ◌≤◌, ◌<◌, String}
use pertisk_kube_app.Base.Json.{decimal}
use pertisk_kube_app.Base.Text.{◌<>◌}
use pertisk_kube_app.Display.{two_units}

-- `Shows s text value unit`: for an age of `s` seconds the text reads as `value` seconds, and its
-- smallest unit is `unit` seconds.
pub data Shows (s : ℕ) : String → ℕ → ℕ → Type 0 where
  seconds : (n : ℕ) → s < 60 → n < 60 → Shows s (decimal n <> "s") n 1
  minutes :
      (n m : ℕ)
      → 60 ≤ s
      → s < 3600
      → n < 60
      → m < 60
      → Shows s (two_units "m" "s" n m) (60 * n + m) 1
  hours :
      (n m : ℕ)
      → 3600 ≤ s
      → s < 86400
      → n < 24
      → m < 60
      → Shows s (two_units "h" "m" n m) (3600 * n + 60 * m) 60
  days :
      (n m : ℕ)
      → 86400 ≤ s
      → s < 604800
      → n < 7
      → m < 24
      → Shows s (two_units "d" "h" n m) (86400 * n + 3600 * m) 3600
  weeks :
      (n m : ℕ)
      → 604800 ≤ s
      → m < 7
      → Shows s (two_units "w" "d" n m) (604800 * n + 86400 * m) 86400
