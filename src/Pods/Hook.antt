-- ===== src/Pods/Hook.antt =====
-- The state of `useRealtimePods` of frontend/src/hooks/useRealtimePods.ts and its events. The
-- updaters given to `setData` run at once. `deletionTimeoutsRef` is left out: nothing sets a
-- timeout in it. The timers of 2 s (empty list) and 500 ms (deletion mark) fire as events, at any
-- time. The page-wide event that a 401 sends is no part of the state, and
-- neither is the socket of the hook; that it opens while it is wanted, or cannot be made, are events.
pub mod Trace
use pertisk_kube_app.Base.{
  ℕ, String, Bool, true, false, not, ◌&&◌, ◌||◌, Option, none, some, List, [], ◌∷◌, leb, eqb,
  if◌then◌else◌,
}
use pertisk_kube_app.Base.Json.{Json, decimal}
use pertisk_kube_app.Base.Lists.{length}
use pertisk_kube_app.Base.Text.{◌<>◌}
use pertisk_kube_app.Pods.Row.{Pod, RawPod, transform_pod}
use pertisk_kube_app.Pods.Merge.{Action, normalize_watch_action}
use pertisk_kube_app.Pods.Reducer.{apply_event, unmark}
use pertisk_kube_app.Pods.Sync.{Counts, sync, next_counts}

pub record State : Type 0 where
  pub rows : List Pod
  pub marked : List String
  pub counts : Counts
  pub is_loading : Bool
  pub has_fetched : Bool
  pub empty_confirmed : Bool
  pub empty_timer : Bool
  pub error : Option String

abbrev pub initial : State
initial = record {
  rows = [];
  marked = [];
  counts = [];
  is_loading = true;
  has_fetched = false;
  empty_confirmed = false;
  empty_timer = false;
  error = none;
}

-- What the request to /api/pods comes to: an exception, an error status, or the list.
pub data Response : Type 0 where
  thrown : Response
  status : ℕ → Response
  listed : List Pod → Response

pub data Event : Type 0 where
  updated : (action : Json) → RawPod → Event
  subscribed : Event
  server_error : (message : String) → Event
  empty_timeout socket_opened socket_refused : Event
  mark_timeout : (key : String) → Event
  synced : Response → Event
  cluster_switched : Event

unfoldable pub is_transient_status : ℕ → Bool
is_transient_status s = eqb s 500 || eqb s 502 || eqb s 503 || eqb s 504

on_action : Option Action → RawPod → State → State
on_action none raw s = s
on_action (some action) raw s =
    let (rows, marked) = apply_event action (transform_pod raw) (s.rows, s.marked) in
    record s { rows = rows; marked = marked }

on_response : Response → State → State
on_response thrown s = record s { error = none; is_loading = false }
on_response (status code) s =
    if is_transient_status code then record s { error = none; is_loading = false } else record s {
      error = some ("Failed to sync pod metrics (" <> decimal code <> ")");
      is_loading = false;
    }
on_response (listed api) s = record s {
  rows = sync s.counts s.marked api s.rows;
  counts = next_counts s.counts s.marked api s.rows;
  is_loading = false;
  has_fetched = true;
  empty_confirmed = eqb (length api) 0;
  empty_timer = false;
}

-- An error message reads the `hasFetched` of the first render, which is false.
unfoldable pub step : Event → State → State
unfolding on_action on_response
step (updated action raw) s = on_action (normalize_watch_action action) raw (record s {
  empty_timer = false;
  has_fetched = true;
  is_loading = false;
  empty_confirmed = false;
})
step subscribed s = record s { empty_timer = true }
step (server_error message) s = record s { error = some message; is_loading = false }
step empty_timeout s =
    if s.empty_timer
    then record s {
      has_fetched = true;
      is_loading = false;
      empty_confirmed = true;
      empty_timer = false;
    }
    else s
step socket_opened s = record s { error = none }
step socket_refused s = record s { error = some "Failed to create WebSocket connection" }
step (mark_timeout key) s = record s { marked = unmark key s.marked }
step (synced response) s = on_response response s
step cluster_switched s = initial

unfoldable pub run : List Event → State → State
run [] s = s
run (e ∷ es) s = run es (step e s)
