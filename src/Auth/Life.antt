-- ===== src/Auth/Life.antt =====
-- How long a login lasts, and what the three readers of the storage agree on.
use pertisk_kube_app.Base.{
  ℕ, ◌+◌, ◌*◌, String, ◌≡◌, refl, true, false, inl, inr, none, some, ltb, is_some, if◌then◌else◌,
  ◌==◌, Bool-cases,
}
use pertisk_kube_app.Base.Text.{◌<>◌}
use pertisk_kube_app.Pods.Raw.{or_text, has_text}
use pertisk_kube_app.Auth.Number.{parse_int-decimal, decimal_blank}
use pertisk_kube_app.Auth.{Storage, cleared, set_auth, is_expired, get_token, is_authenticated}

is_expired-set_auth :
    (now t : ℕ) (token user : String) (expires_in : ℕ) (s : Storage)
    → is_expired t (set_auth now token user expires_in s) ≡ ltb (now + expires_in * 1000) t
unfolding is_expired set_auth
is_expired-set_auth now t token user expires_in s =
    rw (decimal_blank (now + expires_in * 1000), parse_int-decimal (now + expires_in * 1000))

token-set_auth :
    (now : ℕ) (token user : String) (expires_in : ℕ) (s : Storage)
    → (token == "") ≡ false
    → (has_text (set_auth now token user expires_in s).token ≡ true)
      × (or_text (set_auth now token user expires_in s).token "" ≡ token)
unfolding set_auth
token-set_auth now token user expires_in s named = rw named (refl, refl)

-- A login with a token gives the token at every time up to its last millisecond; after that the token is
-- refused and the storage cleared.
pub get_token-set_auth :
    (now t : ℕ) (token user : String) (expires_in : ℕ) (s : Storage)
    → (token == "") ≡ false
    → get_token t (set_auth now token user expires_in s) ≡ (
        if ltb (now + expires_in * 1000) t
        then (none, cleared)
        else (some ("Bearer " <> token), set_auth now token user expires_in s))
unfolding get_token
get_token-set_auth now t token user expires_in s named =
    let (there, same) = token-set_auth now token user expires_in s named in
    rw (get_token, is_expired-set_auth now t token user expires_in s, there, same)

-- Whatever the storage holds, the token is given just if the user counts as authenticated, and the
-- storage that is left gives the same answer again.
get_token-is_authenticated :
    (t : ℕ) (s : Storage)
    → (is_some (get_token t s).0 ≡ is_authenticated t s)
      × (get_token t (get_token t s).1 ≡ get_token t s)
unfolding get_token is_authenticated
get_token-is_authenticated t s = elim (Bool-cases (has_text s.token)) [
  | inr none_there ↦ rw (none_there, get_token, none_there) (refl, refl)
  | inl there ↦ elim (Bool-cases (is_expired t s)) [
    | inl over ↦ rw (there, over, get_token) (refl, refl)
    | inr lasts ↦ rw (there, lasts, get_token) (refl, rw (there, lasts, get_token))
  ]
]
