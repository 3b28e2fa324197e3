-- ===== src/Mode/Op.antt =====
-- Class OpMode of src/server/opmode.cc, over the classes MultiResponseCommand and JSON. opd_expand,
-- the operational template of a path, curl_easy_unescape and the token of a new process are
-- parameters.
pub mod Started
use vyatta_rest.Prelude.{
  ℕ, zero, suc, ◌+◌, Bool, true, false, not, ◌&&◌, ◌||◌, List, [], ◌∷◌, ◌++◌, Option, none, some,
  length, take, drop, map, ltb, leb, ◌==◌, if◌then◌else◌,
}
use vyatta_rest.Text.{Str, codes, empty, str_eq, rfind}
use vyatta_rest.Text.Decimal.{signed_decimal}
use vyatta_rest.Outcome.{Outcome, done, ◌>>=◌, substr_from}
use vyatta_rest.Json.{Json, new_json, add_array, add_value, serialize}
use vyatta_rest.Rest.Cli.{translate_rest_to_cli}
use vyatta_rest.Rest.Keys.{
  http_req_uri, http_req_method, http_resp_location, http_resp_content_type, http_body, op_req_root,
}
use vyatta_rest.Http.{
  Session, AccessLevel, vyattacfg, vyattaop, vyattaservice_user, ErrorType, get, vyatta_debug,
  respond, error, authorization_failure, validation_failure, server_error, created, accepted, ok,
  opmode_process_finished, command_not_found,
}
use vyatta_rest.Chunker.Message.{Query, processes, details, next, query_message}
use vyatta_rest.MultiResp.{
  Peer, ProcessData, start, get_processes, get_process_details, get_chunk, kill,
}
use vyatta_rest.Mode.App.{is_none}

-- What TemplateParams holds of a node: the help text, the action flag, the names of the children,
-- and the allowed values.
pub record Node : Type 0 where
  pub help : Str
  pub action : Bool
  pub children : List Str
  pub enum : List Str

-- The daemon as the objects MultiResponseCommand of one request meet it, one after the other; the
-- token that generate_token makes; curl_easy_unescape; whether opd_expand knows a path; and the
-- node of a path for a caller that may configure or not.
pub record OpHost : Type 0 where
  pub peer : ℕ → Peer
  pub token : Str
  pub unescape : Str → Str
  pub expands : Str → Bool
  pub node : Str → Bool → Option Node

-- A message to the daemon, or a file that is removed.
pub data Effect : Type 0 where
  sent : Str → Effect
  unlinked : Str → Effect

abbrev pub Reply : Type 0
Reply = Outcome (Session × List Effect)

unfoldable pub answer : ErrorType → Session → Reply
answer type s = done (error type s, [])

-- A query is sent unless a name is empty or the write fails.
query_sent : Peer → Query → Str → Str → List Effect
query_sent p q tok user =
    if empty user || empty tok
    then []
    else if p.accepts (query_message q tok user)
    then sent (query_message q tok user) ∷ []
    else []

unfoldable pub started : Session → Str × List Str → Reply
unfolding answer
started s (id, messages) =
    if empty id
    then done (error server_error s, map sent messages)
    else done (
      error created
          (vyatta_debug (codes "op:1.2") (respond http_resp_location (codes "rest/op/" ++ id) s)),
      map sent messages,
    )

unfoldable pub run_command : OpHost → Session → Str → Reply
unfolding answer started
run_command host s cmd =
    let reply = start (host.peer 0) host.token s.user cmd >>= started s in
    if not (host.peer 0).connects
    then answer server_error (vyatta_debug (codes "op:chunker init failed") s)
    else reply

-- POST: a command is started.
unfoldable pub post : OpHost → Session → Str → Reply
unfolding answer run_command
post host s path =
    let run = do
      rest ← substr_from path (length op_req_root + 1)
      cmd ← translate_rest_to_cli host.unescape rest
      run_command host s cmd
    in if leb (length path) (length op_req_root) then answer validation_failure s else run

-- One process as JSON.
process_text : ProcessData → Str
process_text p =
    codes "{\"username\":\""
    ++ (p.username
        ++ (codes "\",\"started\":\""
            ++ (signed_decimal p.start_time
                ++ (codes "\",\"updated\":\""
                    ++ (signed_decimal p.last_update
                        ++ (codes "\",\"id\":\""
                            ++ (p.id
                                ++ (codes "\",\"command\":\"" ++ (p.command ++ codes "\"}")))))))))

add_all : Str → Bool → List Str → Json → Json
add_all key quoted [] j = j
add_all key quoted (x ∷ xs) j = add_all key quoted xs (add_array key x quoted j)

-- GET of the root: the processes of the user.
unfoldable pub list_background : OpHost → Session → Reply
unfolding answer add_all process_text query_sent
list_background host s =
    let listed = do
      coll ← get_processes (host.peer 0) s.user
      done (
        respond http_body
            (serialize (add_all (codes "process") true (map process_text coll) new_json) []) s,
        query_sent (host.peer 0) processes (codes "123456") s.user,
      )
    in if not (host.peer 0).connects
      then answer server_error (vyatta_debug (codes "op:chunker init failed") s)
      else listed

-- validate_op_cmd(cmd, path)
unfoldable pub validate_op_cmd : OpHost → Str → Option Str
validate_op_cmd host cmd =
    if ltb (length cmd) (length (codes "/rest/op/"))
    then none
    else if host.expands (drop (length (codes "/rest/op/")) cmd)
    then some (drop (length (codes "/rest/op/")) cmd)
    else none

may_configure : AccessLevel → Bool
may_configure vyattacfg = true
may_configure vyattaop = false
may_configure vyattaservice_user = false

node_json : Node → Json
unfolding add_all
node_json n = add_all (codes "enum") false n.enum (
    add_all (codes "children") false n.children (
      add_value (codes "action") (if n.action then codes "true" else codes "false")
        (add_value (codes "help") n.help new_json)))

described : Session → Option Node → Reply
unfolding answer node_json
described s none = answer command_not_found s
described s (some n) = done (respond http_body (serialize (node_json n) []) s, [])

-- GET of a path of the operational tree.
unfoldable pub describe_node : OpHost → Session → Str → Reply
unfolding described may_configure
describe_node host s op_path =
    described (vyatta_debug (codes "get op conf data: " ++ op_path) s)
      (host.node op_path (may_configure s.access_level))

finished : OpHost → Session → Str → List Effect → Reply
finished host s id effects =
    if not (host.peer 2).connects
    then done (error server_error s, effects)
    else kill (host.peer 2) s.user id >>= λ messages.
        done (error opmode_process_finished s, effects ++ map sent messages)

chunk_answer : OpHost → Session → Str → List Effect → Str × List Str → Reply
unfolding finished
chunk_answer host s id effects (out, files) =
    let text = respond http_body out (respond http_resp_content_type (codes "text/plain") s) in
    let gone = finished host s id (effects ++ map unlinked files) in
    if str_eq out (codes "END")
    then gone
    else if empty out
    then done (error accepted s, effects ++ map unlinked files)
    else done (
      error ok (record text { response = record text.response { verbatim_body = true } }),
      effects ++ map unlinked files,
    )

next_chunk : OpHost → Session → Str → List Effect → ProcessData → Reply
unfolding chunk_answer query_sent
next_chunk host s id effects pd =
    let chunk =
      get_chunk (host.peer 1) s.user id
      >>= chunk_answer host s id (effects ++ query_sent (host.peer 1) next id s.user) in
    if empty pd.id
    then done (error opmode_process_finished s, effects)
    else if not (host.peer 1).connects
    then done (vyatta_debug (codes "op:chunker init failed") (error server_error s), effects)
    else chunk

-- GET of anything else: the next piece of output of a background process.
unfoldable pub get_background : OpHost → Session → Str → Option ℕ → Reply
unfolding answer next_chunk query_sent
get_background host s path none = done (vyatta_debug (codes "get_bg_data: ") s, [])
get_background host s path (some pos) =
    let id = drop (pos + 1) path in
    let s1 = vyatta_debug (codes "get_bg_data: ") s in
    let s2 = vyatta_debug (codes ": " ++ id) s1 in
    let read =
      get_process_details (host.peer 0) s.user id
      >>= next_chunk host s2 id (query_sent (host.peer 0) details id s.user) in
    if not (length id == 16)
    then answer validation_failure s1
    else if not (host.peer 0).connects
    then done (vyatta_debug (codes "op:chunker init failed") (error server_error s2), [])
    else read

get_node_or_background : OpHost → Session → Str → Option Str → Reply
unfolding describe_node get_background
get_node_or_background host s path (some op_path) = describe_node host s op_path
get_node_or_background host s path none = get_background host s path (rfind b'/' path)

-- `path.substr(pos + 1)`, which is the whole path where there is no '/'
last_part : Str → Option ℕ → Str
last_part path none = path
last_part path (some pos) = drop (pos + 1) path

-- DELETE: a background process is killed.
unfoldable pub delete_background : OpHost → Session → Str → Reply
unfolding answer
delete_background host s id =
    let killed = kill (host.peer 0) s.user id >>= λ messages. done (
      respond http_body (serialize (add_value (codes "message") (codes " ") new_json) []) s,
      map sent messages,
    ) in
    if ltb (length id) 16
    then answer validation_failure s
    else if not (host.peer 0).connects
    then answer server_error s
    else killed

-- process(session)
unfoldable pub process : OpHost → Session → Reply
unfolding answer post list_background validate_op_cmd get_node_or_background last_part
    delete_background
process host s =
    let path = get http_req_uri s.request in
    let method = get http_req_method s.request in
    if is_none s.auth_type
    then answer authorization_failure s
    else if empty path
    then answer validation_failure (vyatta_debug (codes "op:1") s)
    else if ltb (length path) (length op_req_root)
    then answer validation_failure s
    else if str_eq method (codes "POST")
    then post host s path
    else if str_eq method (codes "GET")
    then (if str_eq path op_req_root
        then list_background host s
        else get_node_or_background host s path (validate_op_cmd host path))
    else if str_eq method (codes "DELETE")
    then delete_background host s (last_part path (rfind b'/' path))
    else answer validation_failure s
