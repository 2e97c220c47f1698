-- ===== src/Auth.antt =====
-- The token of a login in the local storage: frontend/src/utils/auth.ts. `now` is `Date.now()`, in
-- milliseconds. The refresh request is a parameter: what it answers.
pub mod Number
pub mod Life
mod Tests
use pertisk_kube_app.Base.{
  ℕ, ◌+◌, ◌-◌, ◌*◌, String, Bool, true, false, not, ◌&&◌, ◌||◌, Option, none, some, ltb, leb, eqb,
  if◌then◌else◌, ◌==◌,
}
use pertisk_kube_app.Base.Json.{decimal}
use pertisk_kube_app.Base.Text.{◌<>◌}
use pertisk_kube_app.Pods.Raw.{or_text, has_text}
use pertisk_kube_app.Auth.Number.{Parsed, nan, negative, natural, parse_int}

-- The three items of the local storage.
pub record Storage : Type 0 where
  pub token : Option String
  pub user : Option String
  pub expiry : Option String

abbrev pub cleared : Storage
cleared = record { token = none; user = none; expiry = none }

-- setAuth
unfoldable pub set_auth : (now : ℕ) → (token user : String) → (expires_in : ℕ) → Storage → Storage
set_auth now token user expires_in s = record {
  token = some token;
  user = some user;
  expiry = some (decimal (now + expires_in * 1000));
}

-- Date.now() > n: no comparison with NaN holds.
abbrev pub is_past : ℕ → Parsed → Bool
is_past now nan = false
is_past now (negative n) = ltb 0 now || ltb 0 n
is_past now (natural n) = ltb n now

-- isTokenExpired
unfoldable pub is_expired : ℕ → Storage → Bool
is_expired now s = if has_text s.expiry then is_past now (parse_int (or_text s.expiry "")) else true

-- getAuthToken: the header's value, and the storage after it.
unfoldable pub get_token : ℕ → Storage → Option String × Storage
get_token now s =
    if not (has_text s.token)
    then (none, s)
    else if is_expired now s
    then (none, cleared)
    else (some ("Bearer " <> or_text s.token ""), s)

-- isAuthenticated
unfoldable pub is_authenticated : ℕ → Storage → Bool
is_authenticated now s = has_text s.token && not (is_expired now s)

-- What the request to /api/refresh comes to.
pub data Refresh : Type 0 where
  thrown not_ok : Refresh
  answered : (success : Bool) → (token : Option String) → Refresh

-- refreshToken, whose answer comes at `now`: the storage after it.
unfoldable pub refresh_token : ℕ → Refresh → Storage → Storage
unfolding set_auth
refresh_token now thrown s = s
refresh_token now not_ok s = s
refresh_token now (answered success token) s =
    if has_text s.token && (success && has_text token)
    then set_auth now (or_text token "") (or_text s.user "") 3600 s
    else s
