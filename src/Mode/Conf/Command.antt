-- ===== src/Mode/Conf/Command.antt =====
-- POST of src/server/confmode.cc: a new configuration session, and the commands of a session.
use vyatta_rest.Prelude.{
  ℕ, ◌+◌, ◌-◌, Bool, true, false, not, ◌&&◌, ◌||◌, [], ◌++◌, Option, none, some, ltb, if◌then◌else◌,
  length, ◌==◌,
}
use vyatta_rest.Text.{Str, codes, empty, str_eq, find, starts_with}
use vyatta_rest.Outcome.{Outcome, done, undefined, ◌>>=◌, substr, substr_from}
use vyatta_rest.Rest.{mass_replace}
use vyatta_rest.Rest.Execute.{execute}
use vyatta_rest.Rest.Modify.{TmpDir, create_conf_modify_file, read_conf_modify_file_from_tag}
use vyatta_rest.Rest.Keys.{http_body, http_resp_location}
use vyatta_rest.Json.{new_json, add_value, serialize}
use vyatta_rest.Http.{
  Session, respond, vyatta_debug, error, authorization_failure, validation_failure, server_error,
  configuration_error, confmode_dup_desc_error, created,
}
use vyatta_rest.Mode.Conf.{
  ConfHost, World, Reply, answer, runs, commits, saves, logged, conv_conf_id, environment,
  escape_text, message_body, setup_session, discard_session,
}
use vyatta_rest.Mode.Conf.Describe.{behind_id}

-- Whether the modify file of the new session was written.
unfoldable pub recorded : Session → Str → World → Reply
unfolding answer
recorded s id w = done (error created (respond http_resp_location (codes "rest/conf/" ++ id) s), w)

unfoldable pub stored : Session → Str → World → Bool × TmpDir → Reply
unfolding answer recorded
stored s id w (true, dir) = recorded s id (record w { dir = dir })
stored s id w (false, dir) = answer server_error s (record w { dir = dir })

-- A new session with the token that was generated.
unfoldable pub create_session : ConfHost → Session → Str → World → Reply
unfolding answer stored setup_session conv_conf_id
create_session host s description w =
    let w' = (setup_session host (conv_conf_id host.token) w).1 in
    if ltb (length host.token) 16
    then answer validation_failure s w
    else stored s host.token w' (create_conf_modify_file host.token s.user description w'.dir)

unfoldable pub is_some : Option Str → Bool
is_some none = false
is_some (some x) = true

-- A description of another session of `user` is refused.
unfoldable pub create : ConfHost → Session → Str → Str → World → Reply
unfolding answer create_session is_some
create host s user description w =
    if not (empty description) && is_some (read_conf_modify_file_from_tag w.dir description user)
    then answer confmode_dup_desc_error s w
    else create_session host s description w

-- What configd gives for a commit or a save: a null text with a null error text makes
-- `string(buf)` of a null pointer.
unfoldable pub configd_text : Option Str × Option Str → Session → Outcome (Session × Str)
configd_text (some buf, err) s = done (s, buf)
configd_text (none, some text) s = done (error configuration_error s, text)
configd_text (none, none) s = undefined

unfoldable pub committed : ConfHost → Bool → Str → World → Session × Str → Reply
committed host is_commit command w (s, buf) =
    let stdout =
      if empty buf && not is_commit then codes "Saving configuration ... Done" else buf in
    escape_text stdout >>= λ text.
    done (message_body (if host.debug then some command else none) text s, w)

unfoldable pub commit_or_save : ConfHost → Session → Bool → Str → World → Reply
unfolding configd_text committed logged environment
commit_or_save host s is_commit sid w =
    let call = if is_commit then commits sid else saves sid in
    let text = configd_text (if is_commit then host.commit sid else host.save sid) s in
    let run = text >>= committed host is_commit (environment sid) (logged call w) in
    if not (host.connects sid) then done (s, w) else run

-- `tmp + " '" + mass_replace(action.substr(n + 1, …), "/", " ") + "'"`, where `n` is the length of
-- the command's name
unfoldable pub argument : Str → ℕ → Outcome Str
argument action n = substr action (n + 1) (length action - (n + 1)) >>= λ rest.
    mass_replace rest (codes "/") (codes " ")

unfoldable pub load_line : (Str → Str) → Str → Str → ℕ → Outcome Str
unfolding argument
load_line unescape line action n =
    let with_file =
      argument action n >>= λ file. done (unescape (line ++ (codes " '" ++ (file ++ codes "'")))) in
    if ltb n (length action) then with_file else done line

unfoldable pub show_line : Str → Str → ℕ → Outcome Str
unfolding argument
show_line line action n =
    let with_path =
      argument action n >>= λ path. done (line ++ (codes " '" ++ (path ++ codes "'"))) in
    if length action == n then done line else with_path

-- The program that a command of a session runs; `none` for a command that is not known.
unfoldable pub command_line : (Str → Str) → Str → Outcome (Option Str)
unfolding argument load_line show_line
command_line unescape action =
    let save = argument action 4 >>= λ file. done (
      some (
        unescape (
          codes "umask 0002 ; /opt/vyatta/sbin/vyatta-save-config.pl"
          ++ (codes " '" ++ (file ++ codes "' --no-defaults"))))) in
    let merge =
      load_line unescape (codes "/opt/vyatta/sbin/vyatta-load-config.pl --merge") action 5
      >>= λ line. done (some line) in
    let load =
      load_line unescape (codes "/opt/vyatta/sbin/vyatta-load-config.pl") action 4 >>= λ line.
      done (some line) in
    let show_all =
      show_line (codes "/bin/cli-shell-api showConfig --show-show-defaults") action 8 >>= λ line.
      done (some line) in
    let show =
      show_line (codes "/bin/cli-shell-api showConfig") action 4 >>= λ line. done (some line) in
    if ltb 4 (length action) && starts_with (codes "save") action
    then save
    else if starts_with (codes "merge") action
    then merge
    else if starts_with (codes "load") action
    then load
    else if starts_with (codes "show-all") action
    then show_all
    else if starts_with (codes "show") action
    then show
    else done none

-- The five escapes of the output.
unfoldable pub escape_output : Str → Outcome Str
escape_output text = do
  a ← mass_replace text (codes "\\") (codes "\\\\")
  b ← mass_replace a (codes "\"") (codes "\\\"")
  c ← mass_replace b (codes "\r") (codes "\\r")
  d ← mass_replace c (codes "\n") (codes "\\n")
  mass_replace d (codes "\t") (codes "\\t")

unfoldable pub shown : ConfHost → Session → Str → World → ℕ × Str → Reply
unfolding escape_output
shown host s command w (err, stdout) =
    let noted =
      if host.debug
      then respond http_body (serialize (add_value (codes "cmd") command new_json) []) s
      else s in
    let s' = if err == 0 then s else error configuration_error noted in
    escape_output stdout >>= λ text.
    done (message_body (if host.debug then some command else none) text s', w)

unfoldable pub run_line : ConfHost → Session → Str → World → Option Str → Reply
unfolding answer shown logged environment
run_line host s sid w none = answer validation_failure s w
run_line host s sid w (some line) =
    let command = environment sid ++ (codes ";" ++ (line ++ codes " 2>&1")) in
    shown host (vyatta_debug (codes "CONF:H") s) command (logged (runs sid command) w)
      (execute host.shell command (codes " "))

-- The command `action` in the session `id`.
unfoldable pub act : ConfHost → Session → Str → World → Str → Reply
unfolding commit_or_save command_line run_line conv_conf_id discard_session
act host session id w action =
    let s = vyatta_debug (codes "CONF:G") session in
    let sid = conv_conf_id id in
    let run = command_line host.unescape action >>= run_line host s sid w in
    if str_eq action (codes "commit") || str_eq action (codes "save")
    then commit_or_save host s (str_eq action (codes "commit")) sid w
    else if str_eq action (codes "discard")
    then done (s, discard_session host id false w)
    else run

-- The session is the user's.
unfoldable pub command_of : ConfHost → Session → Str → Str → Str → World → Reply
unfolding answer act behind_id
command_of host s conf_path_with_id user id w =
    let run = do
      rest ← substr_from conf_path_with_id 1
      cmd_path ← behind_id conf_path_with_id (find (codes "/") rest)
      act host s id w cmd_path
    in if not (str_eq user s.user) then answer authorization_failure s w else run

unfoldable pub looked_up : ConfHost → Session → Str → Str → World → Option Str → Reply
unfolding answer command_of
looked_up host s conf_path_with_id user w none = answer validation_failure s w
looked_up host s conf_path_with_id user w (some id) = command_of host s conf_path_with_id user id w

-- A command: the session is looked up by its description where the id is no session's.
unfoldable pub issue : ConfHost → Session → Str → Str → Str → Str → World → Reply
unfolding looked_up command_of
issue host s conf_path_with_id user id tag w =
    if str_eq tag id
    then looked_up host s conf_path_with_id user w (read_conf_modify_file_from_tag w.dir tag user)
    else command_of host s conf_path_with_id user id w

unfoldable pub post_at : ConfHost → Session → Str → Str → Str → Str → World → Str → Option ℕ → Reply
unfolding create issue
post_at host s conf_path_with_id user id tag w rest none =
    create host (vyatta_debug (codes "CONF:D") s) user rest w
post_at host s conf_path_with_id user id tag w rest (some pos) =
    issue host s conf_path_with_id user id tag w

unfoldable pub post : ConfHost → Session → Str → Str → Str → Str → World → Reply
unfolding post_at create
post host session conf_path_with_id user id tag w =
    let s = vyatta_debug (codes "CONF:C") session in
    let behind = substr_from conf_path_with_id 1 >>= λ rest.
    post_at host s conf_path_with_id user id tag w rest (find (codes "/") rest) in
    if empty conf_path_with_id
    then create host (vyatta_debug (codes "CONF:D") s) user [] w
    else behind
