-- ===== src/Mode/Conf/Listing.antt =====
-- GET of /rest/conf in src/server/confmode.cc: the configuration sessions of the user.
use vyatta_rest.Prelude.{
  ℕ, Bool, true, false, not, List, [], ◌∷◌, ◌++◌, Option, none, some, ltb, if◌then◌else◌, length,
  drop,
}
use vyatta_rest.Text.{Str, codes, str_eq, starts_with}
use vyatta_rest.Text.Decimal.{signed_decimal}
use vyatta_rest.Outcome.{done}
use vyatta_rest.Rest.Keys.{config_tmp_dir, http_body}
use vyatta_rest.Rest.Modify.{read_conf_modify_file}
use vyatta_rest.Json.{Json, new_json, add_value, add_array, serialize}
use vyatta_rest.Http.{Session, respond, server_error}
use vyatta_rest.Mode.Conf.{ConfHost, World, Reply, answer, conv_conf_id, is_configd_sess_changed}

-- One session as JSON.
session_text : Str → Str → Str → Str × Str → Bool → Str
session_text id user description (started, updated) modified =
    codes "{\"id\":\""
    ++ (id
        ++ (codes "\",\"username\":\""
            ++ (user
                ++ (codes "\",\"description\":\""
                    ++ (description
                        ++ (codes "\",\"started\":\""
                            ++ (started
                                ++ (codes "\",\"modified\":\""
                                    ++ ((if modified then codes "true" else codes "false")
                                        ++ (codes "\",\"updated\":\""
                                            ++ (updated ++ codes "\"}")))))))))))

times : Option (ℕ × ℕ) → Str × Str
times none = (codes "0", codes "0")
times (some (mtime, ctime)) = (signed_decimal mtime, signed_decimal ctime)

-- A file of the user, whose session is asked whether it has changes.
unfoldable pub list_owned : ConfHost → Str → Str → Str → Str → Json → World → Json × World
unfolding session_text times
list_owned host user name id description j w =
    let (mods, w') = is_configd_sess_changed host (conv_conf_id id) w in
    (
      add_array (codes "session")
          (session_text id user description (times (host.stat (config_tmp_dir ++ name))) mods) true
          j,
      w',
    )

-- What the modify file says: whether it is one, whose it is, and its description.
unfoldable pub list_read :
    ConfHost → Str → Str → Str → Json → World → Bool × Str × Str → Json × World
unfolding list_owned
list_read host user name id j w (false, conf_user, description) = (j, w)
list_read host user name id j w (true, conf_user, description) =
    if not (str_eq conf_user user) then (j, w) else list_owned host user name id description j w

-- One entry of the directory.
unfoldable pub list_entry : ConfHost → Str → Str → Json → World → Json × World
unfolding list_read
list_entry host user name j w =
    let id = drop 14 name in
    if ltb (length name) 22
    then (j, w)
    else if starts_with (codes ".vyattamodify_") name
    then list_read host user name id j w (read_conf_modify_file w.dir id [] [])
    else (j, w)

unfoldable pub list_entries : ConfHost → Str → List Str → Json → World → Json × World
unfolding list_entry
list_entries host user [] j w = (j, w)
list_entries host user (name ∷ names) j w =
    let (j', w') = list_entry host user name j w in list_entries host user names j' w'

-- The response with the sessions.
unfoldable pub listed : Session → Json × World → Session × World
listed s (j, w) = (respond http_body (serialize j []) s, w)

unfoldable pub list_sessions : ConfHost → Session → World → Reply
unfolding list_entries listed answer
list_sessions host s w =
    if not w.dir.opens
    then answer server_error s w
    else done (
        listed s (
          list_entries host s.user w.dir.names (add_value (codes "message") (codes " ") new_json)
            w))
