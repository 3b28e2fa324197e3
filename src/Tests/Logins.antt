-- ===== src/Tests/Logins.antt =====
-- Inputs for the results on authentication.
use vyatta_rest.Prelude.{◌++◌, ◌≡◌, refl, true, false, [], ◌∷◌, none, some, ltb, ◌+◌, arith}
use vyatta_rest.Text.{Str, substr?, codes, str_eq, find, find_from, rfind, starts_with, contains}
use vyatta_rest.Text.Decimal.{decimal, strtoul}
use vyatta_rest.Outcome.{done}
use vyatta_rest.StrProc.{str_proc, remove_newline, split_loop, first_not_tilde}
use vyatta_rest.Rest.{replace_loop}
use vyatta_rest.Http.{Session, new_session, vyattacfg}
use vyatta_rest.Rest.Keys.{auth_type_vyatta_session}
use vyatta_rest.Auth.Accounts.{Accounts, grant_groups, in_group}
use vyatta_rest.Auth.Lock.{
  Files, Opening, rename_copy, open_lock, close_lock, acquire, lock_failure_clobbers,
}
use vyatta_rest.Auth.Basic as Basic
use vyatta_rest.Auth.Basic.{Checks, log_in}
use vyatta_rest.Auth.Basic.Sound.{Verdict, LoggedIn, log_in-Verdict, authorized-Accepted}
use vyatta_rest.Auth.Session.{
  on_line, claim, after_line, begin, conclude, finish, keeps_time, on_match, put_updated,
  under_lock, with_account, with_groups, Host, Scan, scan_lines, updated_line, is_live,
  session_key_of, lines_of, with_key, settled, take_on, authorized, session_timeout,
}
use vyatta_rest.Auth.Session.Copy.{
  Purged, at_end, keeps, drops, Copies, updated_line-live, scan_lines-Purged,
}
use vyatta_rest.Auth.Session.Sound.{OneOf, Registers, authorized-OneOf}
use vyatta_rest.Text.Find.{Lacks}
use vyatta_rest.Tests.Words.{field}

abbrev accounts : Accounts
accounts = record {
  account = λ user. some (1000, 100);
  groups = λ user. some (codes "vyattacfg" ∷ []);
  sets_loginuid = true;
  sets_groups = true;
  sets_egid = true;
  sets_euid = true;
}

abbrev pub checks : Checks
checks = record {
  accounts = accounts;
  decode = λ s. (codes "vyatta:secret", 13);
  pam = λ service user password. none;
}

abbrev pub host : Host
host = record { accounts = accounts; now = 1000; can_put = λ line. true; debug = false }

log_in-Verdict_example :
    Verdict checks
      (new_session false)
      (codes "vyatta")
      (codes "secret")
      (log_in checks (codes "vyatta") (codes "secret") (new_session false))
log_in-Verdict_example = log_in-Verdict checks (codes "vyatta") (codes "secret") (new_session false)

basic_run : (Basic.authorized checks (codes "Basic eA==") (new_session false)).0 ≡ true
unfolding Basic.authorized log_in find starts_with str_eq contains in_group grant_groups
basic_run = refl

authorized-Accepted_example :
    (user : Str) × (password : Str) × (codes "vyatta:secret" ≡ user ++ b':' ∷ password)
    × Lacks b':' user
    × LoggedIn checks
        (new_session false)
        user
        password
        (Basic.authorized checks (codes "Basic eA==") (new_session false)).1
authorized-Accepted_example =
    authorized-Accepted checks (codes "Basic eA==") (new_session false) (codes "vyatta:secret") []
      refl (omega arith) tt basic_run

abbrev pub files : Files
files = record {
  file = some (codes "0123456789abcdef,vyatta,900,800,user\n" ∷ []);
  tmp = none;
  lck = false;
}

-- Another process holds the lock; nobody does.
abbrev held : Opening
held = record { held = λ ct. true; opens_file = true; opens_copy = true }

abbrev pub free : Opening
free = record { held = λ ct. false; opens_file = true; opens_copy = true }

lock_failure_clobbers_example :
    ((open_lock held files).1 ≡ false)
    × ((close_lock (open_lock held files).0).file ≡ some [])
    × ((close_lock (open_lock held files).0).lck ≡ false)
lock_failure_clobbers_example = lock_failure_clobbers held files (λ ct h. refl) refl

updated_line-live_example :
    (str_proc
        (updated_line 1000
          (new_session false)
          (codes "k" ∷ codes "vyatta" ∷ codes "900" ∷ codes "800" ∷ codes "user" ∷ []))
        (codes ",")
      ≡ done (codes "k" ∷ codes "vyatta" ∷ decimal 1000 ∷ codes "800" ∷ codes "user" ∷ []))
    × (is_live 2000 (codes "k" ∷ codes "vyatta" ∷ decimal 1000 ∷ codes "800" ∷ codes "user" ∷ [])
        ≡ ltb 2000 (1000 + session_timeout))
unfolding keeps_time contains find
updated_line-live_example =
    updated_line-live 1000 2000 (new_session false) (codes "k") (codes "vyatta") (codes "900")
      (codes "800") (codes "user") (field b',' [] (codes "k") (λ e. cc) refl refl)
      (field b',' [] (codes "vyatta") (λ e. cc) refl refl)
      (field b',' [] (codes "800") (λ e. cc) refl refl)
      (field b',' [] (codes "user") (λ e. cc) refl refl) refl (omega arith)

abbrev start : Scan
start = record { session = new_session false; copy = []; found = false }

-- A line that has timed out, and one that has not.
old_line :
    str_proc (codes "k,vyatta,1") (codes ",") ≡ done (codes "k" ∷ codes "vyatta" ∷ codes "1" ∷ [])
unfolding str_proc replace_loop find_from find starts_with remove_newline split_loop first_not_tilde
    substr?
old_line = refl

new_line :
    str_proc (codes "k,vyatta,9000") (codes ",")
    ≡ done (codes "k" ∷ codes "vyatta" ∷ codes "9000" ∷ [])
unfolding str_proc replace_loop find_from find starts_with remove_newline split_loop first_not_tilde
    substr?
new_line = refl

purged :
    Purged 9000
      (codes "x")
      (codes "k,vyatta,1" ∷ codes "k,vyatta,9000" ∷ [])
      (codes "k,vyatta,9000" ∷ [])
unfolding is_live str_eq strtoul
purged =
    drops (codes "k" ∷ codes "vyatta" ∷ codes "1" ∷ []) old_line refl
      (keeps (codes "k" ∷ codes "vyatta" ∷ codes "9000" ∷ []) new_line refl refl at_end)

scan_lines-Purged_example : Copies (codes "k,vyatta,9000" ∷ []) false (
    scan_lines
      (record host { now = 9000 })
      (codes "x")
      (codes "k,vyatta,1" ∷ codes "k,vyatta,9000" ∷ [])
      start)
scan_lines-Purged_example =
    scan_lines-Purged (record host { now = 9000 }) (codes "x") (λ line. refl) purged start

abbrev admitted : Session
admitted = record (new_session false) {
  user = codes "vyatta";
  session_key = codes "0123456789abcdef";
  access_level = vyattacfg;
  auth_type = auth_type_vyatta_session;
}

abbrev files' : Files
files' = record {
  file = some (codes "0123456789abcdef,vyatta,1000,800,user\n" ∷ []);
  tmp = none;
  lck = false;
}

authorized_run :
    authorized host free (codes "Vyatta-Session 0123456789abcdef") (new_session false) files
    ≡ done (true, admitted, files')
unfolding authorized with_key rename_copy open_lock rfind on_line is_live strtoul str_eq claim
    grant_groups close_lock in_group settled take_on acquire after_line begin conclude finish
    keeps_time lines_of on_match put_updated scan_lines session_key_of under_lock updated_line
    with_account with_groups decimal contains str_proc replace_loop find_from find starts_with
    remove_newline split_loop first_not_tilde substr?
authorized_run = refl

authorized-OneOf_example :
    (key : Str) × (session_key_of (codes "Vyatta-Session 0123456789abcdef") ≡ done key)
    × OneOf
        (Registers 1000 key (codes "vyatta"))
        (codes "0123456789abcdef,vyatta,900,800,user\n" ∷ [])
unfolding lines_of
authorized-OneOf_example =
    authorized-OneOf host free (codes "Vyatta-Session 0123456789abcdef") (new_session false) files
      {s' = admitted} {f' = files'} authorized_run
