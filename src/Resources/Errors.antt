-- ===== src/Resources/Errors.antt =====
-- How the resource hooks of frontend/src/hooks/useRealtimeResources.ts class error messages.
use pertisk_kube_app.Base.{
  String, Bool, false, ◌&&◌, ◌||◌, Option, none, some, [], ◌∷◌, if◌then◌else◌, ◌==◌,
}
use pertisk_kube_app.Base.Lists.{any}
use pertisk_kube_app.Base.Text.{to_lower, includes}

-- A test of the lower-cased message; a missing or empty message passes none.
abbrev on_message : (String → Bool) → Option String → Bool
on_message test none = false
on_message test (some m) = if m == "" then false else test (to_lower m)

-- shouldIgnoreRealtimeError
unfoldable pub should_ignore : Option String → Bool
unfolding includes to_lower
should_ignore = on_message (λ m. includes m "watch stream failed" && includes m "forbidden")

-- isTransientK8sListError
unfoldable pub is_transient_list_error : Option String → Bool
unfolding includes to_lower
is_transient_list_error = on_message (λ m. any (includes m) (
    "toomanyrequests" ∷ "storage is (re)initializing" ∷ "code: 429" ∷ "temporarily unavailable"
    ∷ []))

-- isTransientRealtimeConnectivityError
unfoldable pub is_transient_connectivity_error : Option String → Bool
unfolding includes to_lower is_transient_list_error
is_transient_connectivity_error m =
    is_transient_list_error m
    || on_message
        (λ m. any (includes m) (
          "client error (connect)" ∷ "connecterror" ∷ "network is unreachable" ∷ "timedout"
          ∷ "timed out" ∷ "failed to fetch initial" ∷ "load failed" ∷ "failed to fetch"
          ∷ "could not connect" ∷ "networkerror" ∷ "network request failed" ∷ []))
        m

-- What is thrown: an Error (a TypeError among them) with its message, a text, or something else.
pub data Thrown : Type 0 where
  error : String → Thrown
  text : String → Thrown
  other : Thrown

-- isFetchConnectionError
unfoldable pub is_fetch_connection_error : Thrown → Bool
unfolding is_transient_connectivity_error
is_fetch_connection_error (error m) = is_transient_connectivity_error (some m)
is_fetch_connection_error (text m) = is_transient_connectivity_error (some m)
is_fetch_connection_error other = false
