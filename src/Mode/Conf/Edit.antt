-- ===== src/Mode/Conf/Edit.antt =====
-- PUT of src/server/confmode.cc: set, delete, comment, activate and deactivate in a session.
use vyatta_rest.Prelude.{
  ℕ, ◌+◌, Bool, not, ◌||◌, [], ◌++◌, Option, none, some, ltb, if◌then◌else◌, length, take, ◌==◌,
}
use vyatta_rest.Text.{Str, codes, empty, str_eq, find, starts_with}
use vyatta_rest.Outcome.{done, ◌>>=◌, substr_from}
use vyatta_rest.Rest.Cli.{translate_rest_to_cli}
use vyatta_rest.Rest.Execute.{execute}
use vyatta_rest.Rest.Keys.{http_body}
use vyatta_rest.Json.{new_json, add_value, serialize}
use vyatta_rest.Http.{
  Session, respond, error_with, authorization_failure, validation_failure, configuration_error,
  command_not_found,
}
use vyatta_rest.Mode.Conf.{
  ConfHost, World, Reply, answer, runs, logged, conv_conf_id, environment, escape_text,
}

-- A command that edits the session with `cfgcli`.
unfoldable pub is_edit : Str → Bool
is_edit cmd =
    starts_with (codes "set") cmd
    || (starts_with (codes "delete") cmd || starts_with (codes "comment") cmd)

unfoldable pub is_activation : Str → Bool
is_activation cmd = starts_with (codes "activate") cmd || starts_with (codes "deactivate") cmd

lopped_at : Str → Option ℕ → Str
lopped_at cmd none = cmd
lopped_at cmd (some pos) = take pos cmd

-- "lop off everything past the ';'", but not of an edit.
unfoldable pub lopped : Str → Str
unfolding lopped_at is_edit
lopped cmd = if is_edit cmd then cmd else lopped_at cmd (find (codes ";") cmd)

-- The program that a command is handed to; `none` for a command that is not known.
unfoldable pub program : Str → Option Str
unfolding is_edit is_activation
program cmd =
    if is_edit cmd
    then some (codes "/usr/bin/cfgcli -print " ++ cmd)
    else if is_activation cmd
    then some (codes "/opt/vyatta/sbin/vyatta-activate-config.pl " ++ cmd)
    else none

failed_edit : Session → World → Str → Reply
failed_edit s w text = done (error_with configuration_error text s, w)

-- The shell's answer.
unfoldable pub edited : Session → World → ℕ × Str → Reply
unfolding failed_edit
edited s w (err, stdout) =
    let refused = escape_text stdout >>= failed_edit s w in
    if err == 0 then done (s, w) else refused

unfoldable pub run_edit : ConfHost → Session → Str → World → Str → Option Str → Reply
unfolding answer edited logged environment
run_edit host s sid w cmd none =
    answer command_not_found
      (if host.debug
        then respond http_body (serialize (add_value (codes "cmd") cmd new_json) []) s
        else s)
      w
run_edit host s sid w cmd (some line) =
    let command = environment sid ++ (codes ";" ++ (line ++ codes " 2>&1")) in
    edited s (logged (runs sid command) w) (execute host.shell command [])

-- The path behind the id as a command line.
unfoldable pub edit_path : ConfHost → Session → Str → World → Str → Reply
unfolding run_edit lopped program conv_conf_id
edit_path host s id w conf_path = translate_rest_to_cli host.unescape conf_path >>= λ cmd.
    run_edit host s (conv_conf_id id) w (lopped cmd) (program (lopped cmd))

unfoldable pub edit_at : ConfHost → Session → Str → Str → World → Option ℕ → Reply
unfolding answer edit_path
edit_at host s conf_path_with_id id w none = answer validation_failure s w
edit_at host s conf_path_with_id id w (some pos) =
    let run = substr_from conf_path_with_id (pos + 2) >>= edit_path host s id w in
    if ltb (length conf_path_with_id) 2 then answer validation_failure s w else run

unfoldable pub edit : ConfHost → Session → Str → Str → Str → World → Reply
unfolding answer edit_at
edit host s conf_path_with_id user id w =
    let found = substr_from conf_path_with_id 1 >>= λ rest.
    edit_at host s conf_path_with_id id w (find (codes "/") rest) in
    if not (str_eq user s.user)
    then answer authorization_failure s w
    else if empty conf_path_with_id
    then answer validation_failure s w
    else found
