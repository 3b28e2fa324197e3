-- ===== src/Mode/Op/Started.antt =====
-- A POST to the operational mode (src/server/opmode.cc), up to the table of the daemon
-- (src/server/chunker2_manager.cc).
use vyatta_rest.Prelude.{
  ◌+◌, ◌<◌, ◌≡◌, ◌≢◌, refl, ap, ◌∙◌, true, false, [], ◌∷◌, ◌++◌, none, some, length, lt→ltb, ltb,
  leb, arith,
}
use vyatta_rest.Text.{Str, codes, empty, substr_from?}
use vyatta_rest.Text.Find.{str_eq_refl}
use vyatta_rest.Text.Map.{lookup, lookup-assign}
use vyatta_rest.Outcome.{done, substr_from}
use vyatta_rest.Rest.Cli.{translate_rest_to_cli}
use vyatta_rest.Rest.Keys.{
  http_req_uri, http_req_method, http_resp_location, http_resp_code, op_req_root,
}
use vyatta_rest.Http.{Session, get, vyatta_debug, respond, error, created}
use vyatta_rest.Http.Errors.{error_lem}
use vyatta_rest.Chunker.Message.{command_message}
use vyatta_rest.Chunker.Message.Wire.{Plain}
use vyatta_rest.Chunker.Manager as Daemon
use vyatta_rest.Chunker.Manager.{Manager, Host, k_running, on_command, start_new}
use vyatta_rest.Chunker.Manager.Requests.{command, process-encode}
use vyatta_rest.MultiResp.{start}
use vyatta_rest.Mode.App.{is_none}
use vyatta_rest.Mode.Op.{OpHost, sent, process, post, run_command, started}

-- The session of an answer to a started command.
abbrev started_session : Session → Str → Session
started_session s id =
    error created
      (vyatta_debug (codes "op:1.2") (respond http_resp_location (codes "rest/op/" ++ id) s))

not_empty : (t : Str) → length t ≡ 16 → empty t ≡ false
not_empty [] h = cc
not_empty (x ∷ t) h = refl

run_command_lem :
    (host : OpHost) (s : Session) (cmd : Str)
    → (host.peer 0).connects ≡ true
    → length host.token ≡ 16
    → length (command_message host.token cmd s.user) < 1024
    → (host.peer 0).accepts (command_message host.token cmd s.user) ≡ true
    → run_command host s cmd
      ≡ done (started_session s host.token, sent (command_message host.token cmd s.user) ∷ [])
unfolding run_command started start
run_command_lem host s cmd up tok fits writes =
    rw (up, tok, lt→ltb _ _ fits, writes, not_empty host.token tok)

root_leb : (rest : Str) → leb (length (op_req_root ++ b'/' ∷ rest)) (length op_req_root) ≡ false
root_leb rest = ground arith

root_ltb : (rest : Str) → ltb (length (op_req_root ++ b'/' ∷ rest)) (length op_req_root) ≡ false
root_ltb rest = ground arith

substr_from-root :
    (rest : Str) → substr_from (op_req_root ++ b'/' ∷ rest) (length op_req_root + 1) ≡ done rest
unfolding substr_from?
substr_from-root rest = ground arith

post_lem :
    (host : OpHost) (s : Session) (rest cmd : Str)
    → translate_rest_to_cli host.unescape rest ≡ done cmd
    → post host s (op_req_root ++ b'/' ∷ rest) ≡ run_command host s cmd
unfolding post
post_lem host s rest cmd e = rw (root_leb rest, substr_from-root rest, e)

process-post :
    (host : OpHost) (s : Session) (rest : Str)
    → is_none s.auth_type ≡ false
    → get http_req_uri s.request ≡ op_req_root ++ b'/' ∷ rest
    → get http_req_method s.request ≡ codes "POST"
    → process host s ≡ post host s (op_req_root ++ b'/' ∷ rest)
unfolding process
process-post host s rest auth uri method =
    rw (auth, uri, method, root_ltb rest, str_eq_refl (codes "POST"))

vyatta_debug-location :
    (t : Str) (s : Session)
    → (vyatta_debug t s).response.params http_resp_location ≡ s.response.params http_resp_location
unfolding vyatta_debug
vyatta_debug-location t s = ground arith

started_session-location :
    (s : Session) (id : Str)
    → (started_session s id).response.params http_resp_location ≡ some (codes "rest/op/" ++ id)
started_session-location s id =
    let s1 = respond http_resp_location (codes "rest/op/" ++ id) s in
    (error_lem created (vyatta_debug (codes "op:1.2") s1)).2 http_resp_location refl refl
    ∙ vyatta_debug-location (codes "op:1.2") s1

-- The entry of a process that the daemon has just started.
abbrev pub fresh : Host → Str → Str → Str → Daemon.ProcessData
fresh host token statement user = record {
  start_time = host.now;
  last_update = host.now;
  command = statement;
  token = token;
  user = user;
  read_offset = 0;
  status = k_running;
}

start_new_lem :
    (token cmd user : Str)
    → length token ≡ 16
    → cmd ≢ []
    → user ≢ []
    → start_new token cmd user ≡ true
unfolding start_new
start_new_lem token [] user t c u = absurd (c refl)
start_new_lem token (x ∷ cmd) [] t c u = absurd (u refl)
start_new_lem token (x ∷ cmd) (y ∷ user) t c u = rw (not_empty token t)

on_command-fresh :
    (host : Host) (token cmd user : Str) (m : Manager)
    → start_new token cmd user ≡ true
    → lookup token (on_command host token cmd user none m).0.procs
      ≡ some (fresh host token cmd user)
unfolding on_command
on_command-fresh host token cmd user m h =
    rw h (lookup-assign token token (fresh host token cmd user) m.procs ∙ rw (str_eq_refl token))

-- A POST of an authenticated session, whose path translates to a command, is answered 201 with the
-- token of a new process as its location, and sends one message; with that message the daemon has
-- a running process of the user with that token and command in its table. The daemon is reached,
-- the message fits its buffer, the values hold no '<', the command and the user are not empty, the
-- token has 16 characters, and no process has it yet.
pub post_starts :
    (host : OpHost) (s : Session) (rest cmd : Str) (dh : Host) (m : Manager)
    → is_none s.auth_type ≡ false
    → get http_req_uri s.request ≡ op_req_root ++ b'/' ∷ rest
    → get http_req_method s.request ≡ codes "POST"
    → translate_rest_to_cli host.unescape rest ≡ done cmd
    → (host.peer 0).connects ≡ true
    → length host.token ≡ 16
    → length (command_message host.token cmd s.user) < 1024
    → (host.peer 0).accepts (command_message host.token cmd s.user) ≡ true
    → Plain host.token × Plain cmd × Plain s.user
    → cmd ≢ []
    → s.user ≢ []
    → lookup host.token m.procs ≡ none
    → (s' : Session) × (process host s
        ≡ done (s', sent (command_message host.token cmd s.user) ∷ []))
      × (s'.response.params http_resp_code ≡ some (codes "201"))
      × (s'.response.params http_resp_location ≡ some (codes "rest/op/" ++ host.token))
      × (lookup host.token (Daemon.process dh (command_message host.token cmd s.user) m).0.procs
          ≡ some (fresh dh host.token cmd s.user))
post_starts host s rest cmd dh m auth uri method tr up tok fits writes plain nc nu new = (
  started_session s host.token,
  process-post host s rest auth uri method
      ∙ (post_lem host s rest cmd tr ∙ run_command_lem host s cmd up tok fits writes),
  (error_lem created (
      vyatta_debug (codes "op:1.2")
        (respond http_resp_location (codes "rest/op/" ++ host.token) s))).0,
  started_session-location s host.token,
  ap (λ r. lookup host.token r.0.procs) (process-encode dh (command host.token cmd s.user) m plain)
      ∙ (ap (λ o. lookup host.token (on_command dh host.token cmd s.user o m).0.procs) new
          ∙ on_command-fresh dh host.token cmd s.user m
              (start_new_lem host.token cmd s.user tok nc nu)),
)
