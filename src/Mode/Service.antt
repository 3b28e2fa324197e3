-- ===== src/Mode/Service.antt =====
-- Class ServiceMode of src/server/servicemode.cc. The templates and the file system are parameters.
use vyatta_rest.Prelude.{
  ℕ, zero, suc, Bool, true, not, ◌&&◌, List, [], ◌∷◌, ◌++◌, Option, none, some, length, drop, leb,
  if◌then◌else◌,
}
use vyatta_rest.Text.{Str, codes, empty, str_eq}
use vyatta_rest.Outcome.{Outcome, done, no_fuel, ◌>>=◌, substr_from}
use vyatta_rest.StrProc.{str_proc}
use vyatta_rest.Json.{Json, new_json, add_array, serialize}
use vyatta_rest.Rest.Keys.{
  http_req_uri, http_req_method, http_body, service_req_root, service_command_dir, json_input,
}
use vyatta_rest.Http.{
  Session, get, respond, error, error_with, authorization_failure, validation_failure, server_error,
  servicemode_script_error, command_not_found,
}
use vyatta_rest.Mode.{System, handle_cmd_output, failed}
use vyatta_rest.Mode.App.{is_none, export}

-- The children of the command directory (`none` if there is no such node), the help text of a
-- template, and `stat(path) == 0`.
pub record Tree : Type 0 where
  pub children : Option (List Str)
  pub help : Str → Option Str
  pub stat : Str → Bool

-- The loop over the children; `continue` at a child with no template reads the same child again.
unfoldable pub index_loop : Tree → ℕ → List Str → Json → Outcome Json
index_loop tree zero names j = no_fuel
index_loop tree (suc fuel) [] j = done j
index_loop tree (suc fuel) (name ∷ names) j =
    elim (tree.help (service_command_dir ++ (codes "/" ++ name))) [
      | none ↦ index_loop tree fuel (name ∷ names) j
      | some help ↦
          let service =
            codes "{\"id\":\""
            ++ (name ++ (codes "\",\"description\":\"" ++ (help ++ codes "\"}"))) in
          index_loop tree fuel names (add_array (codes "services") service true j)
    ]

index_of : Tree → ℕ → Session → Option (List Str) → Outcome Session
unfolding index_loop
index_of tree fuel s none = done (error_with command_not_found [] s)
index_of tree fuel s (some names) =
    index_loop tree fuel names new_json >>= λ j. done (respond http_body (serialize j []) s)

-- service_index(session)
unfoldable pub service_index : Tree → ℕ → Session → Outcome Session
unfolding index_of
service_index tree fuel s = index_of tree fuel s tree.children

-- The loop of validate_service_cmd over the parts of the command.
unfoldable pub validate_parts : Tree → Str → List Str → Str
validate_parts tree path [] = path
validate_parts tree path (part ∷ parts) =
    let here = path ++ (codes "/" ++ part) in
    let tag = path ++ codes "/node.tag" in
    let onward = validate_parts tree here parts in
    let tagged = validate_parts tree tag parts in
    if tree.stat here then onward else if tree.stat tag then tagged else []

-- validate_service_cmd(cmd)
unfoldable pub validate_service_cmd : Tree → Str → Outcome Str
unfolding validate_parts
validate_service_cmd tree cmd =
    if leb (length cmd) (length service_req_root)
    then done []
    else str_proc (drop (length service_req_root) cmd) (codes "/") >>= λ parts.
        done (validate_parts tree service_command_dir parts)

-- The command line of the script.
unfoldable pub servicecmd : Session → Str → Str
servicecmd s command =
    codes "/bin/bash -p -c '"
    ++ (codes "export REQUEST_METHOD="
        ++ (get http_req_method s.request
            ++ (codes ";"
                ++ (export (codes "SESSION") s.session_key
                    ++ (export (codes "VYATTA_SESSION_USERNAME") s.user
                        ++ (codes
                              "export VYATTA_ACCESS_LEVEL=service-user;umask 000; source /usr/lib/cgi-bin/vyatta-service;_vyatta_service_run "
                            ++ (command ++ (codes " < " ++ (json_input ++ codes "'")))))))))

module _ {W : Type 0} (system : System W) where
  reply : Str → Session → ℕ × Str × W → Outcome (Session × W)
  reply cmd s (err, out, w) =
      let w' = if not s.debug then system.unlink_input w else system.append_input cmd w in
      handle_cmd_output out (failed servicemode_script_error err s) >>= λ s'. done (s', w')

  run : Str → Session → Bool × W → Outcome (Session × W)
  unfolding reply
  run cmd s (ok, w) =
      if not ok then done (error server_error s, w) else reply cmd s (system.system_out cmd w)

  with_command : Session → W → Str → Outcome (Session × W)
  unfolding run servicecmd
  with_command s w command =
      if empty command
      then done (error validation_failure s, w)
      else run (servicecmd s command) s (system.put_input (get http_body s.request) w)

  -- execute_service(session, path)
  unfoldable pub execute_service : Session → Str → W → Outcome (Session × W)
  unfolding with_command
  execute_service s path w = substr_from path (length service_req_root) >>= with_command s w

  -- process(session)
  unfoldable pub process : Tree → ℕ → Session → W → Outcome (Session × W)
  unfolding service_index validate_service_cmd execute_service
  process tree fuel s w =
      let path = get http_req_uri s.request in
      let is_get = str_eq (get http_req_method s.request) (codes "GET") in
      let index = service_index tree fuel s >>= λ s'. done (s', w) in
      let execute = validate_service_cmd tree path >>= λ dir.
      (if not (empty dir)
        then execute_service s path w
        else done (error validation_failure s, w)) in
      if is_none s.auth_type
      then done (error authorization_failure s, w)
      else if empty path
      then done (error validation_failure s, w)
      else if is_get && str_eq path service_req_root
      then index
      else if is_get
      then execute
      else done (error validation_failure s, w)
