-- ===== src/Auth/Accounts.antt =====
-- What authentication asks of the system: accounts, groups, and the calls that change identity
-- (src/server/authbasic.cc and authsession.cc).
use vyatta_rest.Prelude.{ℕ, Bool, false, ◌||◌, List, [], ◌∷◌, Option, if◌then◌else◌}
use vyatta_rest.Text.{Str, codes, str_eq}
use vyatta_rest.Http.{Session, vyattacfg}

-- getpwnam (uid and gid), getgrouplist with room for ten groups (their names, `none` for -1), and
-- whether audit_setloginuid, setgroups, setegid and seteuid succeed.
pub record Accounts : Type 0 where
  pub account : Str → Option (ℕ × ℕ)
  pub groups : Str → Option (List Str)
  pub sets_loginuid : Bool
  pub sets_groups : Bool
  pub sets_egid : Bool
  pub sets_euid : Bool

-- The loop over the groups: membership of vyattacfg gives configuration access.
unfoldable pub in_group : Str → List Str → Bool
in_group name [] = false
in_group name (g ∷ gs) = str_eq g name || in_group name gs

unfoldable pub grant_groups : List Str → Session → Session
unfolding in_group
grant_groups gs s =
    if in_group (codes "vyattacfg") gs then record s { access_level = vyattacfg } else s
