-- ===== src/Auth/Tests.antt =====
-- Runs of the login's storage, and its theorems at concrete times.
use pertisk_kube_app.Base.{◌≡◌, refl, none}
use pertisk_kube_app.Auth.Number.{natural, nan, parse_int}
use pertisk_kube_app.Auth.{Storage, cleared, set_auth, get_token}
use pertisk_kube_app.Auth.Life.{get_token-set_auth}

reads : parse_int " 42px" ≡ natural 42
unfolding parse_int
reads = refl

unreadable : parse_int "soon" ≡ nan
unfolding parse_int
unreadable = refl

abbrev login : Storage
login = set_auth 5000 "abc" "admin" 2 cleared

get_token-set_auth_example : get_token 7001 login ≡ (none, cleared)
get_token-set_auth_example = get_token-set_auth 5000 7001 "abc" "admin" 2 cleared refl
