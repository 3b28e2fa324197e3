-- ===== src/Auth/Basic.antt =====
-- Class AuthBasic of src/server/authbasic.cc: a user and a password, checked by PAM.
-- base64Decode (OpenSSL), PAM and the account database are parameters.
pub mod Sound
use vyatta_rest.Prelude.{
  ℕ, zero, suc, ◌+◌, ◌-◌, ◌%◌, ◌^◌, ◌≡◌, ◌≢◌, refl, Bool, true, false, not, ◌&&◌, ◌||◌, List, [],
  ◌∷◌, ◌++◌, Option, none, some, length, take, drop, ltb, if◌then◌else◌, arith,
}
use vyatta_rest.Text.{Str, codes, empty, starts_with, contains, find}
use vyatta_rest.Rest.Keys.{
  auth_basic, auth_type_basic, service_req_root, pragma_service_user, http_req_uri, http_req_pragma,
  http_resp_debug,
}
use vyatta_rest.Http.{Session, vyattaservice_user, vyatta_debug, append, get as get_param}
use vyatta_rest.Auth.Accounts.{Accounts, in_group, grant_groups}

-- What the decoder leaves in `out`, up to the first NUL, and its length as a size_t; and the calls
-- of PAM for a service, a user and a password, with the mark of the one that fails.
pub record Checks : Type 0 where
  pub accounts : Accounts
  pub decode : Str → Str × ℕ
  pub pam : Str → Str → Str → Option Str

-- handle(auth)
unfoldable pub handle : Str → Bool
handle auth = starts_with auth_basic auth

deny : Str → Session → Bool × Session
deny tag s = (false, vyatta_debug tag s)

-- Whether the user authenticates as a service user.
unfoldable pub wants_service : Session → Bool
wants_service s =
    starts_with service_req_root (get_param http_req_uri s.request)
    || contains pragma_service_user (get_param http_req_pragma s.request)

as_service : Session → Session
unfolding wants_service
as_service s =
    if wants_service s
    then record s { service_user = true; access_level = vyattaservice_user }
    else s

-- The PAM service of the request
unfoldable pub pam_service : Session → Str
unfolding wants_service
pam_service s = if wants_service s then codes "vyatta-service-users.conf" else codes "login"

accept : Session → Bool × Session
accept s = (true, record s { auth_type = auth_type_basic })

-- The last calls, after PAM: they take on the user's identity.
take_identity : Checks → Session → Bool × Session
unfolding deny accept
take_identity c s =
    if s.service_user
    then accept s
    else if not c.accounts.sets_loginuid
    then (false, s)
    else if not c.accounts.sets_egid
    then deny (codes "AAK") s
    else if not c.accounts.sets_euid
    then deny (codes "AAL") s
    else accept s

after_pam : Checks → Session → Option Str → Bool × Session
unfolding deny take_identity
after_pam c s none = take_identity c s
after_pam c s (some tag) = deny tag s

note_group : Bool → Session → Session
note_group grants s =
    if grants && s.debug
    then record s { response = append http_resp_debug (codes "AAF0") s.response }
    else s

-- setgroups, then PAM.
with_groups : Checks → Str → Str → Session → Option (List Str) → Bool × Session
unfolding deny after_pam note_group
with_groups c service password s none = deny (codes "AAF0") s
with_groups c service password s (some gs) =
    let s' = note_group (in_group (codes "vyattacfg") gs) (grant_groups gs s) in
    if not c.accounts.sets_groups
    then deny (codes "AAF5") s'
    else after_pam c s' (c.pam service s.user password)

with_account : Checks → Str → Str → Session → Option (ℕ × ℕ) → Bool × Session
unfolding deny with_groups
with_account c service password s none = deny (codes "AAC") s
with_account c service password s (some ids) =
    with_groups c service password s (c.accounts.groups s.user)

-- From the user name and the password on.
unfoldable pub log_in : Checks → Str → Str → Session → Bool × Session
unfolding with_account after_pam as_service
log_in c username password session =
    let s = as_service (record session { user = username }) in
    if not s.service_user
    then with_account c (pam_service session) password s (c.accounts.account username)
    else after_pam c s (c.pam (pam_service session) username password)

-- `str_out.substr(pos + 1, len - pos - 1)`, whose count wraps around.
password_at : Str → ℕ → ℕ → Str
password_at out len pos = take ((len % 2 ^ 64 + 2 ^ 64 - pos - 1) % 2 ^ 64) (drop (pos + 1) out)

split_user : Checks → Str × ℕ → Session → Option ℕ → Bool × Session
unfolding log_in password_at
split_user c (out, len) s none = (false, s)
split_user c (out, len) s (some pos) = log_in c (take pos out) (password_at out len pos) s

-- authorized(val, session)
unfoldable pub authorized : Checks → Str → Session → Bool × Session
unfolding deny split_user
authorized c val s =
    if ltb (length val) (length auth_basic + 1)
    then (false, s)
    else let auth = drop (length auth_basic + 1) val in
      if empty auth
      then deny (codes "AAB") s
      else split_user c (c.decode auth) s (find (codes ":") (c.decode auth).0)
