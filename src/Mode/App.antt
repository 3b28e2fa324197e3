-- ===== src/Mode/App.antt =====
-- Class AppMode of src/server/appmode.cc.
use vyatta_rest.Prelude.{ℕ, Bool, true, false, not, [], ◌++◌, length, if◌then◌else◌}
use vyatta_rest.Text.{Str, codes, empty}
use vyatta_rest.Outcome.{Outcome, done, ◌>>=◌, substr_from}
use vyatta_rest.Rest.Keys.{
  auth_type_none, auth_type_basic, auth_type_vyatta_session, AuthAccessType, http_req_uri,
  http_req_method, http_body, app_req_root, json_input,
}
use vyatta_rest.Http.{
  Session, get, vyatta_debug, error, authorization_failure, validation_failure, server_error,
  appmode_script_error,
}
use vyatta_rest.Mode.{System, handle_cmd_output, failed}

-- `_auth_type == AUTH_TYPE_NONE`
abbrev pub is_none : AuthAccessType → Bool
is_none auth_type_none = true
is_none auth_type_basic = false
is_none auth_type_vyatta_session = false

-- `if (value.empty() == false) environment += "export NAME=" + value + ";"`
abbrev pub export : Str → Str → Str
export name value =
    if empty value then [] else codes "export " ++ (name ++ (codes "=" ++ (value ++ codes ";")))

-- The command line of the script.
unfoldable pub appmodecmd : Session → Str → Str
appmodecmd s command =
    codes "/bin/bash -p -c '"
    ++ (codes "export REQUEST_METHOD="
        ++ (get http_req_method s.request
            ++ (codes ";export COMMIT_VIA=gui2_app;"
                ++ (export (codes "SESSION") s.session_key
                    ++ (export (codes "USERNAME") s.user
                        ++ (codes "umask 000; source /usr/lib/cgi-bin/vyatta-app;_vyatta_app_run "
                            ++ (command ++ (codes " < " ++ (json_input ++ codes "'")))))))))

module _ {W : Type 0} (system : System W) where
  -- Behind the command: the body is removed unless in debug mode, where the command is appended.
  reply : Str → Session → W → ℕ × Str × W → Outcome (Session × W)
  reply cmd s w (err, out, w') =
      let s' = failed appmode_script_error err s in
      let w'' = if not s.debug then system.unlink_input w' else system.append_input cmd w' in
      handle_cmd_output out s' >>= λ s'. done (vyatta_debug (codes "XE:" ++ cmd) s', w'')

  run : Str → Session → Bool × W → Outcome (Session × W)
  unfolding reply
  run cmd s (ok, w) =
      if not ok then done (error server_error s, w) else reply cmd s w (system.system_out cmd w)

  with_command : Session → W → Str → Outcome (Session × W)
  unfolding run appmodecmd
  with_command s w command =
      if empty command
      then done (error validation_failure s, w)
      else run (appmodecmd s command) s (system.put_input (get http_body s.request) w)

  -- process(session)
  unfoldable pub process : Session → W → Outcome (Session × W)
  unfolding with_command
  process session w =
      let s = vyatta_debug (codes "XC") session in
      if is_none s.auth_type
      then done (error authorization_failure s, w)
      else let path = get http_req_uri s.request in
        let rest = substr_from path (length app_req_root) in
        if empty path then done (error validation_failure s, w) else rest >>= with_command s w
