-- ===== src/Mode/Permissions.antt =====
-- Class Permissions of src/server/permissions.cc. The daemons' rule maps and jansson's text of the
-- two arrays are parameters.
use vyatta_rest.Prelude.{
  ℕ, ◌+◌, ◌-◌, List, [], ◌∷◌, Option, none, some, length, take, drop, ltb, if◌then◌else◌,
}
use vyatta_rest.Text.{Str, codes, empty, str_eq, find}
use vyatta_rest.Outcome.{Outcome, done, ◌>>=◌, substr}
use vyatta_rest.Rest.Keys.{http_req_uri, http_req_method, http_body, perm_req_root}
use vyatta_rest.Http.{
  Session, get, vyatta_debug, respond, error, authorization_failure, validation_failure,
}
use vyatta_rest.Mode.App.{is_none}

-- The object of one rule: what atoi is applied to, and the path.
pub record Rule : Type 0 where
  pub rule : Str
  pub path : Str
  pub perms : Str

-- The value of an entry that has a "=" at `pos`, once its key is known.
keyed : Str → Str → Option ℕ → Outcome (Option Rule)
keyed key perms none = done none
keyed key perms (some pos) = do
  path ← substr key (pos + 2) (length key + length perms + 1 - pos + 1)
  done (some (record { rule = take pos key; path = path; perms = perms }))

rule_of : Str → Str → Outcome (Option Rule)
unfolding keyed
rule_of key perms =
    if str_eq key (codes "DEFAULT")
    then done (some (record { rule = codes "10000"; path = key; perms = perms }))
    else keyed key perms (find (codes ":") key)

-- One entry: `none` where the loop goes on without an object.
entry_rule : Str → Option ℕ → Outcome (Option Rule)
unfolding rule_of
entry_rule entry none = done none
entry_rule entry (some pos) = rule_of (take pos entry) (drop (pos + 1) entry)

push_some : Option Rule → List Rule → List Rule
push_some none rules = rules
push_some (some r) rules = r ∷ rules

-- maptojson(perm), over the entries that map_next goes through
unfoldable pub maptojson : List Str → Outcome (List Rule)
unfolding entry_rule push_some
maptojson [] = done []
maptojson (entry ∷ entries) = do
  r ← entry_rule entry (find (codes "=") entry)
  rules ← maptojson entries
  done (push_some r rules)

-- The daemons: the entries of the rules of configd and of opd, `none` when there is no connection;
-- and the compact text of the object with the members "conf" and "op" that are there.
pub record Daemons : Type 0 where
  pub conf_perms : Option (List Str)
  pub op_perms : Option (List Str)
  pub dump : Option (List Rule) → Option (List Rule) → Str

json_of : Option (List Str) → Outcome (Option (List Rule))
json_of none = done none
json_of (some entries) = maptojson entries >>= λ rules. done (some rules)

-- The body of the response.
unfoldable pub permissions_body : Daemons → Outcome Str
unfolding maptojson json_of
permissions_body d = do conf ← json_of d.conf_perms; op ← json_of d.op_perms; done (d.dump conf op)

-- process(session)
unfoldable pub process : Daemons → Session → Outcome Session
unfolding permissions_body
process d s =
    let path = get http_req_uri s.request in
    let answer = permissions_body d >>= λ body. done (respond http_body body s) in
    if is_none s.auth_type
    then done (error authorization_failure s)
    else if empty path
    then done (error validation_failure (vyatta_debug (codes "perm:1") s))
    else if ltb (length path) (length perm_req_root)
    then done (error validation_failure s)
    else if str_eq (get http_req_method s.request) (codes "GET")
    then answer
    else done (error validation_failure s)
