-- ===== src/Auth/Basic/Sound.antt =====
-- Who AuthBasic lets in (src/server/authbasic.cc).
use vyatta_rest.Prelude.{
  sym, subst, ◌≡◌, ◌⊎◌, inl, inr, refl, either_if, not, ◌∙◌, Bool, true, false, length, take, ltb,
  drop, if◌then◌else◌, Option, none, some, List, [], arith, ℕ, suc, ◌+◌, ◌-◌, ◌%◌, ◌^◌, ◌<◌, ◌∷◌,
  ◌++◌, ap, append_assoc, take-length, length-append,
}
use vyatta_rest.Text.{Str, codes, find, empty}
use vyatta_rest.Text.Find.{Lacks, Lacks-append, find-skip, find-Lacks, Cut, cut}
use vyatta_rest.Rest.Keys.{auth_type_basic}
use vyatta_rest.Http.{Session, vyatta_debug}
use vyatta_rest.Auth.Accounts.{in_group, grant_groups}
use vyatta_rest.Auth.Basic.{
  Checks, authorized, split_user, password_at, log_in, pam_service, take_identity, after_pam,
  accept, with_account, with_groups, deny, as_service, note_group,
}

-- What holds of a login that was accepted: PAM accepted the password for the user of the session,
-- and the session is either a service user's or that of an account.
abbrev pub LoggedIn : Checks → Session → Str → Str → Session → Type 0
LoggedIn c s username password s' =
    (c.pam (pam_service s) username password ≡ none)
    × (s'.auth_type ≡ auth_type_basic)
    × (s'.user ≡ username)
    × ((s'.service_user ≡ true) ⊎ ((ids : ℕ × ℕ) × (c.accounts.account username ≡ some ids)))

-- What a step that ends with a verdict keeps of the session, and the authentication type it sets.
abbrev Kept : Session → Bool × Session → Type 0
Kept s p =
    (p.1.auth_type ≡ (if p.0 then auth_type_basic else s.auth_type))
    × (p.1.user ≡ s.user)
    × (p.1.service_user ≡ s.service_user)

abbrev Same : Session → Session → Type 0
Same s s' = (s'.auth_type ≡ s.auth_type) × (s'.user ≡ s.user) × (s'.service_user ≡ s.service_user)

Kept-Same : (s s' : Session) (p : Bool × Session) → Same s s' → Kept s' p → Kept s p
Kept-Same s s' p (a, b, c) (k, l, m) = (rw (k, a), l ∙ b, m ∙ c)

vyatta_debug-Same : (t : Str) (s : Session) → Same s (vyatta_debug t s)
unfolding vyatta_debug
vyatta_debug-Same t s = (ground arith, ground arith, ground arith)

grant_groups-Same : (gs : List Str) (s : Session) → Same s (grant_groups gs s)
unfolding grant_groups
grant_groups-Same gs s = (ground arith, ground arith, ground arith)

note_group-Same : (b : Bool) (s : Session) → Same s (note_group b s)
unfolding note_group
note_group-Same b s = (ground arith, ground arith, ground arith)

deny-Kept : (t : Str) (s : Session) → Kept s (deny t s)
unfolding deny
deny-Kept t s = vyatta_debug-Same t s

accept-Kept : (s : Session) → Kept s (accept s)
unfolding accept
accept-Kept s = (refl, refl, refl)

take_identity-Kept : (c : Checks) (s : Session) → Kept s (take_identity c s)
unfolding take_identity
take_identity-Kept c s = either_if (Kept s) s.service_user (accept-Kept s) (
    either_if (Kept s) (not c.accounts.sets_loginuid) (refl, refl, refl)
      (either_if (Kept s) (not c.accounts.sets_egid) (deny-Kept (codes "AAK") s) (
        either_if (Kept s) (not c.accounts.sets_euid) (deny-Kept (codes "AAL") s) (accept-Kept s))))

after_pam-Kept : (c : Checks) (s : Session) (r : Option Str) → Kept s (after_pam c s r)
unfolding after_pam
after_pam-Kept c s none = take_identity-Kept c s
after_pam-Kept c s (some t) = deny-Kept t s

after_pam_lem : (c : Checks) (s : Session) (r : Option Str) → (after_pam c s r).0 ≡ true → r ≡ none
unfolding after_pam deny
after_pam_lem c s none h = refl
after_pam_lem c s (some t) h = cc

joined : List Str → Session → Session
unfolding note_group
joined gs s = note_group (in_group (codes "vyattacfg") gs) (grant_groups gs s)

joined-Same : (gs : List Str) (s : Session) → Same s (joined gs s)
unfolding joined
joined-Same gs s =
    let (a, b, c) = note_group-Same (in_group (codes "vyattacfg") gs) (grant_groups gs s) in
    let (k, l, m) = grant_groups-Same gs s in (a ∙ k, b ∙ l, c ∙ m)

-- A step that keeps the session so, and accepts only where P holds.
abbrev Step {ℓ} : Session → Type ℓ → Bool × Session → Type ℓ
Step s P p = Kept s p × (p.0 ≡ true → P)

deny-Step {ℓ} : {P : Type ℓ} (t : Str) (s : Session) → Step s P (deny t s)
unfolding deny
deny-Step t s = (vyatta_debug-Same t s, λ h. cc)

with_groups-Step :
    (c : Checks) (service password : Str) (s : Session) (gs : Option (List Str))
    → Step s (c.pam service s.user password ≡ none) (with_groups c service password s gs)
unfolding with_groups joined
with_groups-Step c service password s none = deny-Step (codes "AAF0") s
with_groups-Step c service password s (some gs) =
    let s' = joined gs s in
    let p = c.pam service s.user password in
    either_if (Step s (p ≡ none)) (not c.accounts.sets_groups)
      (
        Kept-Same s s' (deny (codes "AAF5") s') (joined-Same gs s)
            (deny-Step {P = p ≡ none} (codes "AAF5") s').0,
        (deny-Step (codes "AAF5") s').1,
      )
      (
        Kept-Same s s' (after_pam c s' p) (joined-Same gs s) (after_pam-Kept c s' p),
        after_pam_lem c s' p,
      )

with_account-Step :
    (c : Checks) (service password : Str) (s : Session) (ids : Option (ℕ × ℕ))
    → Step s
        ((c.pam service s.user password ≡ none) × ((i : ℕ × ℕ) × (ids ≡ some i)))
        (with_account c service password s ids)
unfolding with_account
with_account-Step c service password s none = deny-Step (codes "AAC") s
with_account-Step c service password s (some ids) =
    let (k, p) = with_groups-Step c service password s (c.accounts.groups s.user) in
    (k, λ h. (p h, (ids, refl)))

-- What holds of a verdict of AuthBasic for a user and a password.
abbrev pub Verdict : Checks → Session → Str → Str → Bool × Session → Type 0
Verdict c s username password p =
    (p.0 ≡ true → LoggedIn c s username password p.1) × (p.0 ≡ false → p.1.auth_type ≡ s.auth_type)

as_service-auth_type : (s : Session) → (as_service s).auth_type ≡ s.auth_type
unfolding as_service
as_service-auth_type s = ground arith

as_service-user : (s : Session) → (as_service s).user ≡ s.user
unfolding as_service
as_service-user s = ground arith

-- From a step on the session `s'` to a verdict on the session `s`.
Step-Verdict {ℓ} :
    {P : Type ℓ} (c : Checks) (s s' : Session) (username password : Str) (p : Bool × Session)
    → Step s' P p
    → s'.auth_type ≡ s.auth_type
    → s'.user ≡ username
    → (P
        → (c.pam (pam_service s) username password ≡ none)
          × ((s'.service_user ≡ true) ⊎ ((ids : ℕ × ℕ) × (c.accounts.account username ≡ some ids))))
    → Verdict c s username password p
Step-Verdict c s s' username password (true, r) ((k, l, m), h) ea eu f = (
  λ e.
      let (q, w) = f (h refl) in
      (
        q,
        k,
        l ∙ eu,
        subst (λ b. (b ≡ true) ⊎ ((ids : ℕ × ℕ) × (c.accounts.account username ≡ some ids))) (sym m)
            w,
      ),
  λ e. cc,
)
Step-Verdict c s s' username password (false, r) ((k, l, m), h) ea eu f = (λ e. cc, λ e. k ∙ ea)

branch :
    (c : Checks) (s s' : Session) (username password : Str)
    → s'.auth_type ≡ s.auth_type
    → s'.user ≡ username
    → (b : Bool) → s'.service_user ≡ b
    → Verdict c s username password (
        if not b
        then with_account c (pam_service s) password s' (c.accounts.account username)
        else after_pam c s' (c.pam (pam_service s) username password))
branch c s s' username password ea eu true e =
    let r = c.pam (pam_service s) username password in
    Step-Verdict c s s' username password (after_pam c s' r)
      (after_pam-Kept c s' r, after_pam_lem c s' r) ea eu (λ q. (q, inl e))
branch c s s' username password ea eu false e =
    let ids = c.accounts.account username in
    Step-Verdict c s s' username password (with_account c (pam_service s) password s' ids)
      (with_account-Step c (pam_service s) password s' ids) ea eu
      (λ q. (subst (λ u. c.pam (pam_service s) u password ≡ none) eu q.0, inr q.1))

-- AuthBasic accepts a user and a password only if PAM accepts them for the request's service; the
-- session is then the user's, with basic authentication, and the user is a service user or has an
-- account. Where it refuses them the authentication type of the session stays as it was.
pub log_in-Verdict :
    (c : Checks) (username password : Str) (s : Session)
    → Verdict c s username password (log_in c username password s)
unfolding log_in
log_in-Verdict c username password s =
    let s0 = record s { user = username } in
    let s' = as_service s0 in
    branch c s s' username password (as_service-auth_type s0) (as_service-user s0) s'.service_user
      refl

abbrev LoggedInAs : Checks → Session → Str → Session → Type 0
LoggedInAs c s text s' =
    (user : Str) × (password : Str) × (text ≡ user ++ b':' ∷ password)
    × Lacks b':' user
    × LoggedIn c s user password s'

drop_past : (user t : Str) → drop (suc (length user)) (user ++ b':' ∷ t) ≡ t
drop_past [] t = refl
drop_past (x ∷ user) t = drop_past user t

password_at-append :
    (user password rest : Str)
    → length user + 1 + length password < 2 ^ 64
    → password_at
        ((user ++ b':' ∷ password) ++ rest)
        (length user + 1 + length password)
        (length user)
      ≡ password
unfolding password_at
password_at-append user password rest h =
    let n : ((length user + 1 + length password) % 2 ^ 64 + 2 ^ 64 - length user - 1) % 2 ^ 64
        ≡ length password =
      omega (arith, h) in
    let k : length user + 1 ≡ suc (length user) = omega arith in
    rw (n, k, append_assoc user (b':' ∷ password) rest, drop_past user (password ++ rest))
      (take-length password rest)

-- What a decoded text leads to, where it is accepted.
abbrev Leads : Checks → Session → Str → Str → Type 0
Leads c s text rest =
    let p = split_user c (text ++ rest, length text) s (find (codes ":") (text ++ rest)) in
    p.0 ≡ true → LoggedInAs c s text p.1

split_user-colon :
    (c : Checks) (s : Session) (user password rest : Str)
    → length (user ++ b':' ∷ password) < 2 ^ 64
    → Lacks b':' user
    → Leads c s (user ++ b':' ∷ password) rest
unfolding split_user
split_user-colon c s user password rest small h =
    let text = user ++ b':' ∷ password in
    let len = length user + 1 + length password in
    let n : length text ≡ len = omega (arith, length-append user (b':' ∷ password)) in
    let found : find (codes ":") (text ++ rest) ≡ some (length user) =
      ap (find (codes ":")) (append_assoc user (b':' ∷ password) rest)
      ∙ find-skip b':' [] user (password ++ rest) h in
    let cut : take (length user) (text ++ rest) ≡ user =
      ap (take (length user)) (append_assoc user (b':' ∷ password) rest)
      ∙ take-length user (b':' ∷ password ++ rest) in
    let word : password_at (text ++ rest) (length text) (length user) ≡ password =
      ap (λ l. password_at (text ++ rest) l (length user)) n
      ∙ password_at-append user password rest (omega (arith, n, small)) in
    let same : split_user c (text ++ rest, length text) s (find (codes ":") (text ++ rest))
        ≡ log_in c user password s =
      ap (split_user c (text ++ rest, length text) s) found
      ∙ (ap (λ u. log_in c u (password_at (text ++ rest) (length text) (length user)) s) cut
          ∙ ap (λ w. log_in c user w s) word) in
    subst (λ p. p.0 ≡ true → LoggedInAs c s text p.1) (sym same)
      (λ q. (user, password, refl, h, (log_in-Verdict c user password s).0 q))

split_user-parts :
    (c : Checks) (s : Session) (text rest : Str)
    → length text < 2 ^ 64
    → Lacks b':' rest
    → Cut b':' text
    → Leads c s text rest
unfolding split_user
split_user-parts c s text rest small clean (inl h) =
    subst
      (λ o.
        let p = split_user c (text ++ rest, length text) s o in
        p.0 ≡ true → LoggedInAs c s text p.1)
      (sym (find-Lacks b':' [] (text ++ rest) (Lacks-append b':' text rest h clean))) (λ q. cc)
split_user-parts c s text rest small clean (inr (user, password, e, h)) =
    subst (λ t. Leads c s t rest) (sym e)
      (split_user-colon c s user password rest (subst (λ t. length t < 2 ^ 64) e small) h)

-- AuthBasic accepts a header only if what its base64 part decodes to has a ':', and PAM accepts the
-- text before the first ':' with the text behind it as the password, for the service of the request;
-- the session is then that user's, with basic authentication, and the user is a service user or has
-- an account. The decoded text is shorter than 2^64 bytes, its length is the one that the decoder
-- gives, and the bytes that stand behind it in the buffer up to a NUL hold no ':'.
pub authorized-Accepted :
    (c : Checks) (val : Str) (s : Session) (text rest : Str)
    → c.decode (drop 6 val) ≡ (text ++ rest, length text)
    → length text < 2 ^ 64
    → Lacks b':' rest
    → (authorized c val s).0 ≡ true
    → (user : Str) × (password : Str) × (text ≡ user ++ b':' ∷ password)
      × Lacks b':' user
      × LoggedIn c s user password (authorized c val s).1
unfolding authorized deny split_user
authorized-Accepted c val s text rest e small clean h =
    let P : Bool × Session → Type 0 = λ p. p.0 ≡ true → LoggedInAs c s text p.1 in
    either_if P (ltb (length val) 6) (λ q. cc)
      (either_if P (empty (drop 6 val)) (λ q. cc)
        (subst (λ d. P (split_user c d s (find (codes ":") d.0))) (sym e)
          (split_user-parts c s text rest small clean (cut b':' text))))
      h
