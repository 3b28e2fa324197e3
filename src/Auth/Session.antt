-- ===== src/Auth/Session.antt =====
-- Class AuthSession of src/server/authsession.cc: a request is authorized by a line of the session
-- file, which is copied without the lines that have timed out.
pub mod Copy
pub mod Sound
use vyatta_rest.Prelude.{
  ℕ, zero, suc, ◌+◌, ◌*◌, ◌%◌, ◌^◌, Bool, true, false, not, ◌&&◌, ◌||◌, List, [], ◌∷◌, ◌++◌, Option,
  none, some, length, take, drop, ltb, if◌then◌else◌,
}
use vyatta_rest.Text.{Str, codes, empty, str_eq, starts_with, contains, find}
use vyatta_rest.Text.Decimal.{decimal, signed_decimal, strtoul}
use vyatta_rest.Rest.Keys.{
  auth_vyatta_session, auth_vyatta_path_loc, pragma_no_vyatta_session_update, http_req_pragma,
  http_resp_debug, auth_type_vyatta_session,
}
use vyatta_rest.Outcome.{Outcome, done, thrown, undefined, no_fuel, ◌>>=◌, substr}
use vyatta_rest.StrProc.{str_proc, get}
use vyatta_rest.Http.{Session, vyattaservice_user, append, get as get_param}
use vyatta_rest.Auth.Accounts.{Accounts, in_group, grant_groups}
use vyatta_rest.Auth.Lock.{Files, Opening, open_lock, close_lock}

-- AuthSession::_session_timeout, in seconds
abbrev pub session_timeout : ℕ
session_timeout = 1800

-- handle(auth)
unfoldable pub handle : Str → Bool
handle auth = contains auth_vyatta_path_loc auth || starts_with auth_vyatta_session auth

-- The 16 characters behind a name and one separator. Where the name ends the text, the position is
-- out of range, and substr throws.
after_name : Str → Str → Option ℕ → Outcome Str
after_name name val none = done []
after_name name val (some pos) = substr val (pos + length name + 1) 16

-- The session key of the header or of the cookie: the header's first, "" if there is neither.
unfoldable pub session_key_of : Str → Outcome Str
unfolding after_name
session_key_of val = do
  key ← after_name auth_vyatta_path_loc val (find auth_vyatta_path_loc val)
  auth ← after_name auth_vyatta_session val (find auth_vyatta_session val)
  done (if empty auth then key else auth)

-- `if (_debug) session._response.append(HTTP_RESP_DEBUG, …)`
abbrev pub note : Bool → Str → Session → Session
note debug text s =
    if debug then record s { response = append http_resp_debug text s.response } else s

-- The accounts, the clock, whether fputs of a line succeeds, and AuthBase::_debug.
pub record Host : Type 0 where
  pub accounts : Accounts
  pub now : ℕ
  pub can_put : Str → Bool
  pub debug : Bool

-- How far the loop over the lines has come: the session, the copy, and whether it was found.
pub record Scan : Type 0 where
  pub session : Session
  pub copy : List Str
  pub found : Bool

-- What a line leads to: the next line, the end of the loop (`break`), `return false`, or a write past
-- `updated_sess`.
pub data Verdict : Type 0 where
  next stop refuse overruns : Scan → Verdict

-- `(session_time + _session_timeout) > cur_time`, on unsigned longs
unfoldable pub is_live : ℕ → List Str → Bool
is_live now s = ltb now ((strtoul (get s 2) + session_timeout) % 2 ^ 64)

unfoldable pub keeps_time : Session → Bool
keeps_time session =
    contains pragma_no_vyatta_session_update (get_param http_req_pragma session.request)

-- The line that is written for the session that was found.
unfoldable pub updated_line : ℕ → Session → List Str → Str
unfolding keeps_time signed_decimal
updated_line now session s =
    get s 0
    ++ (codes ","
        ++ (get s 1
            ++ (codes ","
                ++ ((if keeps_time session then signed_decimal (strtoul (get s 2)) else decimal now)
                    ++ (codes "," ++ (get s 3 ++ (codes "," ++ (get s 4 ++ codes "\n"))))))))

-- sprintf into `char updated_sess[1024]`, with its NUL byte, and fputs of the updated line; when that
-- fails the loop goes on (`continue`).
unfoldable pub put_updated : Host → List Str → Scan → Verdict
unfolding updated_line
put_updated host s scan =
    let line = updated_line host.now scan.session s in
    if not (ltb (length line) 1024)
    then overruns scan
    else if host.can_put line
    then next (record scan {
      session = record scan.session { auth_type = auth_type_vyatta_session };
      copy = scan.copy ++ line ∷ [];
      found = true;
    })
    else next scan

-- The group list of an account that exists.
unfoldable pub with_groups : Host → List Str → Scan → Option (List Str) → Verdict
with_groups host s scan none =
    refuse (record scan { session = note host.debug (codes "AAF0") scan.session })
with_groups host s scan (some gs) = put_updated host s (record scan {
  session =
      note (host.debug && in_group (codes "vyattacfg") gs) (codes "AAF0")
        (grant_groups gs scan.session);
})

unfoldable pub with_account : Host → List Str → Scan → Option (ℕ × ℕ) → Verdict
with_account host s scan none =
    refuse (record scan { session = note host.debug (codes "AAC") scan.session })
with_account host s scan (some ids) =
    with_groups host s scan (host.accounts.groups scan.session.user)

-- The user and the key of the line, and the access level of a service user.
unfoldable pub claim : List Str → Session → Session
claim s session =
    let session' = record session { user = get s 1; session_key = get s 0 } in
    if str_eq (get s 4) (codes "service-user")
    then record session' { access_level = vyattaservice_user; service_user = true }
    else session'

-- "this is our session"
unfoldable pub on_match : Host → List Str → Scan → Verdict
unfolding put_updated with_groups with_account
on_match host s scan =
    let scan' = record scan { session = claim s (note host.debug (codes "AABs8") scan.session) } in
    if not scan'.session.service_user
    then with_account host s scan' (host.accounts.account (get s 1))
    else put_updated host s scan'

-- One line, split at its commas.
unfoldable pub on_line : Host → Str → Str → List Str → Scan → Verdict
unfolding on_match
on_line host auth buf s scan =
    let seen = record scan {
      session = note host.debug (codes "AABs6") (note host.debug (codes "AABs5") scan.session);
    } in
    if not (is_live host.now s)
    then next seen
    else let live = record seen { session = note host.debug (codes "AABs7") seen.session } in
      if str_eq (get s 0) auth
      then on_match host s live
      else if host.can_put buf
      then next (record live { copy = live.copy ++ buf ∷ [] })
      else stop live

-- What follows a line: `rest` reads the lines behind it.
unfoldable pub after_line : (Scan → Outcome Verdict) → Verdict → Outcome Verdict
after_line rest (next scan) = rest scan
after_line rest (stop scan) = done (stop scan)
after_line rest (refuse scan) = done (refuse scan)
after_line rest (overruns scan) = undefined

-- The loop: what fgets reads, line by line.
unfoldable pub scan_lines : Host → Str → List Str → Scan → Outcome Verdict
unfolding after_line
scan_lines host auth [] scan = done (next scan)
scan_lines host auth (buf ∷ lines) scan = str_proc buf (codes ",") >>= λ s.
    after_line (scan_lines host auth lines) (on_line host auth buf s scan)

with_note : Host → Str → Scan → Scan
with_note host text scan = record scan { session = note host.debug text scan.session }

-- The calls that take on the identity of the account, up to the first one that fails.
unfoldable pub take_on : Host → Scan → Bool × Scan
unfolding with_note
take_on host scan =
    if not host.accounts.sets_loginuid
    then (false, scan)
    else if not host.accounts.sets_groups
    then (false, with_note host (codes "AAF5") scan)
    else if not host.accounts.sets_egid
    then (false, with_note host (codes "AAF6") scan)
    else if not host.accounts.sets_euid
    then (false, with_note host (codes "AAF7") scan)
    else (true, scan)

-- The verdict on a scan.
unfoldable pub settled : Host → Scan → Bool × Scan
unfolding take_on
settled host scan =
    if scan.found && not scan.session.service_user then take_on host scan else (scan.found, scan)

-- Behind the loop: the identity of the account is taken on, unless it is a service user's.
unfoldable pub conclude : Host → Verdict → Bool × Scan
unfolding settled
conclude host (refuse scan) = (false, scan)
conclude host (overruns scan) = (false, scan)
conclude host (next scan) = settled host scan
conclude host (stop scan) = settled host scan

unfoldable pub lines_of : Option (List Str) → List Str
lines_of none = []
lines_of (some lines) = lines

-- What `authorized` returns after the loop, with the session, and the files after ~Lock().
unfoldable pub finish : Host → Files → Verdict → Bool × Session × Files
finish host f verdict = (
  (conclude host verdict).0,
  (conclude host verdict).1.session,
  close_lock (record f { tmp = some (conclude host verdict).1.copy }),
)

-- The loop starts with nothing copied and nothing found.
unfoldable pub begin : Host → Session → Scan
begin host session = record {
  session = note host.debug (codes "AABs4") (note host.debug (codes "AABs3") session);
  copy = [];
  found = false;
}

-- From the lock on, with the key that is looked for.
unfoldable pub under_lock : Host → Str → Session → Files × Bool → Outcome (Bool × Session × Files)
unfolding scan_lines conclude finish begin lines_of
under_lock host auth session (f, locked) =
    let reading = scan_lines host auth (lines_of f.file) (begin host session) in
    if locked
    then reading >>= (λ verdict. done (finish host f verdict))
    else done (false, session, close_lock f)

-- With the key of the header.
unfoldable pub with_key : Host → Opening → Session → Files → Str → Outcome (Bool × Session × Files)
unfolding under_lock
with_key host o session f key =
    if empty key
    then done (false, note host.debug (codes "AABs1") session, f)
    else under_lock host key session (open_lock o f)

-- authorized(val, session), over the session file: the verdict, the session and the files.
unfoldable pub authorized :
    Host → Opening → Str → Session → Files → Outcome (Bool × Session × Files)
unfolding session_key_of with_key
authorized host o val session f =
    let checked = session_key_of val >>= with_key host o session f in
    if ltb (length val) (length auth_vyatta_session + 1)
      || ltb (length val) (length auth_vyatta_path_loc + 1)
    then done (false, session, f)
    else checked
