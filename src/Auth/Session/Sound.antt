-- ===== src/Auth/Session/Sound.antt =====
-- Who AuthSession lets in (src/server/authsession.cc).
use vyatta_rest.Prelude.{
  ℕ, ◌+◌, ◌≡◌, refl, sym, subst, ◌∙◌, either_if, cases_if, Bool, true, false, not, ◌&&◌, ◌||◌, List,
  [], ◌∷◌, ◌++◌, Option, none, some, length, ltb, append_assoc, arith,
}
use vyatta_rest.Text.{Str, codes, empty, str_eq}
use vyatta_rest.Outcome.{Outcome, done, >>=-eq-done}
use vyatta_rest.StrProc.{str_proc, get}
use vyatta_rest.Rest.Keys.{auth_vyatta_session, auth_vyatta_path_loc}
use vyatta_rest.Http.{Session}
use vyatta_rest.Auth.Accounts.{in_group, grant_groups}
use vyatta_rest.Auth.Lock.{Files, Opening, open_lock}
use vyatta_rest.Auth.Session.{
  Host, Scan, Verdict, next, stop, refuse, overruns, on_line, on_match, put_updated, with_groups,
  with_account, scan_lines, is_live, after_line, take_on, settled, conclude, finish, begin,
  under_lock, lines_of, authorized, with_key, session_key_of, claim, note,
}

-- A line of the file that registers the key: read at its commas, it holds the key and has not timed
-- out, and the user is its second field.
pub record Registers (now : ℕ) (auth user line : Str) : Type 0 where
  pub fields : List Str
  pub read : str_proc line (codes ",") ≡ done fields
  pub live : is_live now fields ≡ true
  pub key : str_eq (get fields 0) auth ≡ true
  pub same_user : user ≡ get fields 1

abbrev pub OneOf : (Str → Type 0) → List Str → Type 0
OneOf P lines =
    (before : List Str) × (line : Str) × (after : List Str) × (lines ≡ before ++ line ∷ after)
    × P line

grant_groups-user : (gs : List Str) (s : Session) → (grant_groups gs s).user ≡ s.user
unfolding grant_groups
grant_groups-user gs s = ground arith

note-user : (b : Bool) (t : Str) (s : Session) → (note b t s).user ≡ s.user
note-user b t s = ground arith

claim-user : (fs : List Str) (s : Session) → (claim fs s).user ≡ get fs 1
unfolding claim
claim-user fs s = ground arith

abbrev scan_of : Verdict → Scan
scan_of (next scan) = scan
scan_of (stop scan) = scan
scan_of (refuse scan) = scan
scan_of (overruns scan) = scan

-- After the match, whatever is done next, the user is that of the line.
abbrev HasUser : Str → Verdict → Type 0
HasUser user v = (scan_of v).session.user ≡ user

put_updated-HasUser :
    (host : Host) (fs : List Str) (scan : Scan)
    → HasUser scan.session.user (put_updated host fs scan)
unfolding put_updated
put_updated-HasUser host fs scan = ground arith

with_groups-HasUser :
    (host : Host) (fs : List Str) (scan : Scan) (gs : Option (List Str))
    → HasUser scan.session.user (with_groups host fs scan gs)
unfolding with_groups
with_groups-HasUser host fs scan none = note-user host.debug (codes "AAF0") scan.session
with_groups-HasUser host fs scan (some gs) =
    put_updated-HasUser host fs _
    ∙ (note-user (host.debug && in_group (codes "vyattacfg") gs) (codes "AAF0")
          (grant_groups gs scan.session)
        ∙ grant_groups-user gs scan.session)

with_account-HasUser :
    (host : Host) (fs : List Str) (scan : Scan) (ids : Option (ℕ × ℕ))
    → HasUser scan.session.user (with_account host fs scan ids)
unfolding with_account
with_account-HasUser host fs scan none = note-user host.debug (codes "AAC") scan.session
with_account-HasUser host fs scan (some ids) =
    with_groups-HasUser host fs scan (host.accounts.groups scan.session.user)

on_match-HasUser :
    (host : Host) (fs : List Str) (scan : Scan) → HasUser (get fs 1) (on_match host fs scan)
unfolding on_match
on_match-HasUser host fs scan =
    let scan' = record scan { session = claim fs (note host.debug (codes "AABs8") scan.session) } in
    let user = claim-user fs (note host.debug (codes "AABs8") scan.session) in
    either_if (HasUser (get fs 1)) (not scan'.session.service_user)
      (with_account-HasUser host fs scan' (host.accounts.account (get fs 1)) ∙ user)
      (put_updated-HasUser host fs scan' ∙ user)

-- When a scan has found the session, one of the lines registers its user.
abbrev Found : ℕ → Str → List Str → Scan → Type 0
Found now auth lines scan = scan.found ≡ true → OneOf (Registers now auth scan.session.user) lines

abbrev FoundBy : ℕ → Str → List Str → Verdict → Type 0
FoundBy now auth lines v = Found now auth lines (scan_of v)

Found-user :
    (now : ℕ) (auth : Str) (lines : List Str) (scan scan' : Scan)
    → scan'.found ≡ scan.found
    → scan'.session.user ≡ scan.session.user
    → Found now auth lines scan
    → Found now auth lines scan'
Found-user now auth lines scan scan' e u h q =
    subst (λ user. OneOf (Registers now auth user) lines) (sym u) (h (sym e ∙ q))

on_line-FoundBy :
    (host : Host) (auth buf : Str) (fs : List Str) (scan : Scan) (before after : List Str)
    → str_proc buf (codes ",") ≡ done fs
    → Found host.now auth (before ++ buf ∷ after) scan
    → FoundBy host.now auth (before ++ buf ∷ after) (on_line host auth buf fs scan)
unfolding on_line
on_line-FoundBy host auth buf fs scan before after read h =
    let P = FoundBy host.now auth (before ++ buf ∷ after) in
    let s6 = note host.debug (codes "AABs6") (note host.debug (codes "AABs5") scan.session) in
    let s7 = note host.debug (codes "AABs7") s6 in
    let u6 =
      note-user host.debug (codes "AABs6") (note host.debug (codes "AABs5") scan.session)
      ∙ note-user host.debug (codes "AABs5") scan.session in
    let u7 = note-user host.debug (codes "AABs7") s6 ∙ u6 in
    let seen = record scan { session = s6 } in
    let live = record scan { session = s7 } in
    cases_if P (not (is_live host.now fs))
      (λ e. Found-user host.now auth (before ++ buf ∷ after) scan seen refl u6 h)
      (λ e.
        cases_if P (str_eq (get fs 0) auth)
          (λ k q. (
            before,
            buf,
            after,
            refl,
            record {
              fields = fs;
              read = read;
              live = ground (arith, e);
              key = k;
              same_user = on_match-HasUser host fs live;
            },
          ))
          (λ k.
            either_if P (host.can_put buf)
              (Found-user host.now auth (before ++ buf ∷ after) scan live refl u7 h)
              (Found-user host.now auth (before ++ buf ∷ after) scan live refl u7 h)))

-- What a line leads to, given what the lines behind it lead to.
after_line-FoundBy :
    (now : ℕ) (auth : Str) (all : List Str) (rest : Scan → Outcome Verdict) (w v : Verdict)
    → ((scan : Scan) → Found now auth all scan → rest scan ≡ done v → FoundBy now auth all v)
    → FoundBy now auth all w
    → after_line rest w ≡ done v
    → FoundBy now auth all v
unfolding after_line
after_line-FoundBy now auth all rest (next scan) v k h q = k scan h q
after_line-FoundBy now auth all rest (stop scan) v k h q =
    let e : stop scan ≡ v = cc in subst (FoundBy now auth all) e h
after_line-FoundBy now auth all rest (refuse scan) v k h q =
    let e : refuse scan ≡ v = cc in subst (FoundBy now auth all) e h
after_line-FoundBy now auth all rest (overruns scan) v k h q = cc

scan_lines-FoundBy :
    (host : Host) (auth : Str) (before lines : List Str) (scan : Scan) (v : Verdict)
    → Found host.now auth (before ++ lines) scan
    → scan_lines host auth lines scan ≡ done v
    → FoundBy host.now auth (before ++ lines) v
unfolding scan_lines
scan_lines-FoundBy host auth before [] scan v h q =
    let e : next scan ≡ v = cc in subst (FoundBy host.now auth (before ++ [])) e h
scan_lines-FoundBy host auth before (buf ∷ lines) scan v h q =
    let (fs, read, r) = >>=-eq-done (str_proc buf (codes ",")) _ q in
    let assoc = append_assoc before (buf ∷ []) lines in
    let rest : (scan' : Scan)
        → Found host.now auth (before ++ buf ∷ lines) scan'
        → scan_lines host auth lines scan' ≡ done v
        → FoundBy host.now auth (before ++ buf ∷ lines) v =
      λ scan' k q'.
        subst (λ all. FoundBy host.now auth all v) assoc
          (scan_lines-FoundBy host auth (before ++ buf ∷ []) lines scan' v
            (subst (λ all. Found host.now auth all scan') (sym assoc) k) q') in
    after_line-FoundBy host.now auth (before ++ buf ∷ lines) (scan_lines host auth lines)
      (on_line host auth buf fs scan) v rest
      (on_line-FoundBy host auth buf fs scan before lines read h) r

abbrev Settles : Scan → Bool × Scan → Type 0
Settles scan r = r.0 ≡ true → (r.1 ≡ scan) × (scan.found ≡ true)

settled-Settles : (host : Host) (scan : Scan) → Settles scan (settled host scan)
unfolding settled take_on
settled-Settles host scan =
    let refuse : (scan' : Scan) → Settles scan (false, scan') = λ scan' q. cc in
    cases_if (Settles scan) (scan.found && not scan.session.service_user)
      (λ b. either_if (Settles scan) (not host.accounts.sets_loginuid) (refuse _) (
        either_if (Settles scan) (not host.accounts.sets_groups) (refuse _) (
          either_if (Settles scan) (not host.accounts.sets_egid) (refuse _) (
            either_if (Settles scan) (not host.accounts.sets_euid) (refuse _)
              (λ q. (refl, ground (arith, b)))))))
      (λ b q. (refl, q))

conclude_lem :
    (host : Host) (v : Verdict)
    → (conclude host v).0 ≡ true
    → ((conclude host v).1 ≡ scan_of v) × ((scan_of v).found ≡ true)
unfolding conclude
conclude_lem host (next scan) h = settled-Settles host scan h
conclude_lem host (stop scan) h = settled-Settles host scan h
conclude_lem host (refuse scan) h = cc
conclude_lem host (overruns scan) h = cc

abbrev Admits : List Str → ℕ → Str → Session → Files → Outcome (Bool × Session × Files) → Type 0
Admits lines now auth s' f' o = o ≡ done (true, s', f') → OneOf (Registers now auth s'.user) lines

under_lock-Admits :
    (host : Host) (auth : Str) (s : Session) (f : Files) (locked : Bool) (s' : Session) (f' : Files)
    → Admits (lines_of f.file) host.now auth s' f' (under_lock host auth s (f, locked))
unfolding under_lock finish begin
under_lock-Admits host auth s f locked s' f' =
    either_if (Admits (lines_of f.file) host.now auth s' f') locked
      (λ q.
        let (v, e, r) = >>=-eq-done (scan_lines host auth (lines_of f.file) (begin host s)) _ q in
        let (e1, e2) = conclude_lem host v cc in
        let u : (scan_of v).session.user ≡ s'.user = cc in
        subst (λ user. OneOf (Registers host.now auth user) (lines_of f.file)) u
          (scan_lines-FoundBy host auth [] (lines_of f.file) (begin host s) v (λ k. cc) e e2))
      (λ q. cc)

with_key-Admits :
    (host : Host) (o : Opening) (s : Session) (f : Files) (key : Str) (s' : Session) (f' : Files)
    → Admits (lines_of f.file) host.now key s' f' (with_key host o s f key)
unfolding with_key open_lock
with_key-Admits host o s f key s' f' =
    either_if (Admits (lines_of f.file) host.now key s' f') (empty key) (λ q. cc)
      (under_lock-Admits host key s (open_lock o f).0 (open_lock o f).1 s' f')

-- AuthSession accepts a header only if a session key can be read from it and is registered: the
-- session file has a line that holds the key, has not timed out, and names the user that the session
-- gets.
pub authorized-OneOf :
    (host : Host) (o : Opening) (val : Str) (s : Session) (f : Files) {s' : Session} {f' : Files}
    → authorized host o val s f ≡ done (true, s', f')
    → (key : Str) × (session_key_of val ≡ done key)
      × OneOf (Registers host.now key s'.user) (lines_of f.file)
unfolding authorized
authorized-OneOf host o val s f {s'} {f'} =
    let P : Outcome (Bool × Session × Files) → Type 0 = λ r.
      r ≡ done (true, s', f')
      → (key : Str) × (session_key_of val ≡ done key)
        × OneOf (Registers host.now key s'.user) (lines_of f.file) in
    either_if P
      (ltb (length val) (length auth_vyatta_session + 1)
        || ltb (length val) (length auth_vyatta_path_loc + 1))
      (λ q. cc)
      (λ q.
        let (key, e, r) = >>=-eq-done (session_key_of val) _ q in
        (key, e, with_key-Admits host o s f key s' f' r))
