-- ===== src/Mode/Conf.antt =====
-- Class ConfMode of src/server/confmode.cc: what it asks of the system, and the operations that it
-- makes on configuration sessions (setup_session, discard_session, is_configd_sess_changed).
pub mod Listing
pub mod Describe
pub mod Edit
pub mod Command
pub mod Process
pub mod Owned
pub mod Safety
pub mod Posting
pub mod Ownership
pub mod Created
use vyatta_rest.Prelude.{
  ℕ, Bool, true, false, not, ◌&&◌, List, [], ◌∷◌, ◌++◌, Option, none, some, if◌then◌else◌,
}
use vyatta_rest.Text.{Str, codes, empty}
use vyatta_rest.Text.Decimal.{decimal}
use vyatta_rest.Text.Hex.{strtoull_hex}
use vyatta_rest.Outcome.{Outcome, done, ◌>>=◌}
use vyatta_rest.Rest.{mass_replace}
use vyatta_rest.Rest.Execute.{Shell}
use vyatta_rest.Rest.Keys.{
  config_tmp_dir, local_changes_only, local_config_dir, conf_command_dir, http_body,
}
use vyatta_rest.Rest.Modify.{TmpDir, unlink_file}
use vyatta_rest.Json.{Json, new_json, add_value, serialize}
use vyatta_rest.Http.{Session, ErrorType, error, respond}
use vyatta_rest.Configuration.{TemplateParams}

-- A call that is made on a configuration session, by the number of that session; a command that is
-- run for it; or the reading of a node in it, with everything that configd is asked for that.
pub data Call : Type 0 where
  set_up asks_changed discards tears_down commits saves : Str → Call
  runs : Str → Str → Call
  reads_node : Str → Str → Call

-- The directory of the modify files, and the calls that were made.
pub record World : Type 0 where
  pub dir : TmpDir
  pub calls : List Call

-- What configd gives for a session: whether a connection is opened, whether the session is set up
-- and whether it has changes, and the text of a commit and of a save with the text of the error.
-- The shell; the token that generate_token makes; curl_easy_unescape and curl_easy_escape; the times
-- of a file; and the node of a path in a session.
pub record ConfHost : Type 0 where
  pub connects : Str → Bool
  pub sess_setup : Str → Bool
  pub sess_changed : Str → Bool
  pub commit : Str → Option Str × Option Str
  pub save : Str → Option Str × Option Str
  pub shell : Shell
  pub token : Str
  pub unescape : Str → Str
  pub escape : Str → Str
  pub stat : Str → Option (ℕ × ℕ)
  pub get_configured_node : Str → Str → Outcome (Option TemplateParams)
  pub debug : Bool

abbrev pub Reply : Type 0
Reply = Outcome (Session × World)

unfoldable pub answer : ErrorType → Session → World → Reply
answer type s w = done (error type s, w)

unfoldable pub logged : Call → World → World
logged call w = record w { calls = w.calls ++ call ∷ [] }

-- `convconfid = ulltostring(strtoull("0x" + id))`
unfoldable pub conv_conf_id : Str → Str
conv_conf_id id = decimal (strtoull_hex id)

-- is_configd_sess_changed(sid)
unfoldable pub is_configd_sess_changed : ConfHost → Str → World → Bool × World
unfolding logged
is_configd_sess_changed host sid w =
    if host.connects sid then (host.sess_changed sid, logged (asks_changed sid) w) else (false, w)

-- setup_session(sid)
unfoldable pub setup_session : ConfHost → Str → World → Bool × World
unfolding logged
setup_session host sid w =
    if host.connects sid then (host.sess_setup sid, logged (set_up sid) w) else (false, w)

-- What discard_session does over an open connection.
unfoldable pub discard_open : Str → Bool → World → World
unfolding logged conv_conf_id
discard_open id exit_session w =
    let sid = conv_conf_id id in
    let w' = logged (discards sid) w in
    if exit_session
    then (let w'' = logged (tears_down sid) w' in record w'' { dir = unlink_file id w''.dir })
    else w'

-- discard_session(id, exit_session)
unfoldable pub discard_session : ConfHost → Str → Bool → World → World
unfolding discard_open conv_conf_id
discard_session host id exit_session w =
    if empty id
    then w
    else if not (host.connects (conv_conf_id id))
    then w
    else discard_open id exit_session w

-- ConfMode::_shell_env
unfoldable pub shell_env : Str
shell_env =
    codes "export VYATTA_TEMPLATE_LEVEL=/;export VYATTA_MOD_NAME=.modified;"
    ++ codes "export vyatta_datadir=/opt/vyatta/share;"
    ++ codes "export vyatta_sysconfdir=/opt/vyatta/etc;"
    ++ codes "export vyatta_sharedstatedir=/opt/vyatta/com;export VYATTA_TAG_NAME=node.tag;"
    ++ codes "export vyatta_sbindir=/opt/vyatta/sbin;export VYATTA_CFG_GROUP_NAME=vyattacfg;"
    ++ codes "export vyatta_bindir=/opt/vyatta/bin;export vyatta_libdir=/opt/vyatta/lib;"
    ++ codes "export VYATTA_EDIT_LEVEL=/;export vyatta_libexecdir=/opt/vyatta/libexec;"
    ++ codes "export vyatta_localstatedir=/opt/vyatta/var;export vyatta_prefix=/opt/vyatta;"
    ++ codes "export vyatta_datarootdir=/opt/vyatta/share;"
    ++ codes "export vyatta_configdir=/opt/vyatta/config;export UNIONFS=unionfs;"
    ++ codes "export vyatta_infodir=/opt/vyatta/share/info;"
    ++ codes "export PATH=/usr/local/sbin:/usr/local/bin:/usr/sbin:/usr/bin:/sbin:/bin;"
    ++ codes "export COMMIT_VIA=gui2_rest;export VYATTA_OUTPUT_ERROR_LOCATION=TRUE;"
    ++ codes "export vyatta_localedir=/opt/vyatta/share/locale;"

-- The environment of a command that works on a session.
unfoldable pub environment : Str → Str
unfolding shell_env
environment sid =
    shell_env
    ++ (codes "export VYATTA_ACTIVE_CONFIGURATION_DIR=/active;export VYATTA_CONFIG_TMP=/session/"
        ++ (sid
            ++ (config_tmp_dir
                ++ (codes ";export VYATTA_CHANGES_ONLY_DIR=/session/"
                    ++ (sid
                        ++ (local_changes_only
                            ++ (codes ";export vyatta_cfg_templates="
                                ++ (conf_command_dir
                                    ++ (codes ";export VYATTA_CONFIG_TEMPLATE="
                                        ++ (conf_command_dir
                                            ++ (codes ";export VYATTA_TEMP_CONFIG_DIR=/session/"
                                                ++ (sid
                                                    ++ (local_config_dir
                                                        ++ (codes ";export VYATTA_CONFIG_SID="
                                                            ++ sid))))))))))))))

-- The same text with two victims replaced, one after the other.
unfoldable pub escape_text : Str → Outcome Str
escape_text text = do
  quoted ← mass_replace text (codes "\"") (codes "\\\"")
  mass_replace quoted (codes "\n") (codes "\\n")

with_command : Option Str → Json → Json
with_command none j = j
with_command (some c) j = add_value (codes "command") c j

-- A response whose body is a JSON object with a message, and the command in debug mode.
unfoldable pub message_body : Option Str → Str → Session → Session
unfolding with_command
message_body command text s =
    let j = add_value (codes "message") text new_json in
    respond http_body (serialize (with_command command j) []) s
