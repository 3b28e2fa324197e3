-- ===== src/Mode/Conf/Process.antt =====
-- `ConfMode::process` of src/server/confmode.cc: the guards, the session that the path names, and
-- the handler of the method.
use vyatta_rest.Prelude.{
  ℕ, ◌+◌, Bool, true, false, not, [], Option, none, some, ltb, if◌then◌else◌, length, take, drop,
}
use vyatta_rest.Text.{Str, codes, empty, str_eq, find}
use vyatta_rest.Outcome.{done}
use vyatta_rest.Rest.Modify.{TmpDir, read_conf_modify_file, read_conf_modify_file_from_tag}
use vyatta_rest.Rest.Keys.{conf_req_root, http_req_uri, http_req_method, http_body}
use vyatta_rest.Http.{
  Session, AccessLevel, vyattacfg, vyattaop, vyattaservice_user, get, vyatta_debug, respond,
  authorization_failure, validation_failure,
}
use vyatta_rest.Mode.App.{is_none}
use vyatta_rest.Mode.Conf.{ConfHost, World, Reply, answer, discard_session, message_body}
use vyatta_rest.Mode.Conf.Listing.{list_sessions}
use vyatta_rest.Mode.Conf.Describe.{describe}
use vyatta_rest.Mode.Conf.Edit.{edit}
use vyatta_rest.Mode.Conf.Command.{post}

-- What the request is about: the path behind the root, and `user`, `id` and `tag` once the modify
-- files have been read.
pub record Target : Type 0 where
  pub conf_path_with_id : Str
  pub user : Str
  pub id : Str
  pub tag : Str

unfoldable pub named_id : Str → Option ℕ → Str
named_id rest none = rest
named_id rest (some pos) = take pos rest

unfoldable pub found_by_tag : Str → Str → Str → Option Str → Option Target
found_by_tag path user tag none = none
found_by_tag path user tag (some id) =
    some (record { conf_path_with_id = path; user = user; id = id; tag = tag })

-- The id of a description, which a POST does not look up here.
unfoldable pub by_tag : TmpDir → Str → Bool → Str → Str → Str → Option Target
unfolding found_by_tag
by_tag dir path is_post user tag id =
    if is_post
    then some (record { conf_path_with_id = path; user = user; id = id; tag = tag })
    else found_by_tag path user tag (read_conf_modify_file_from_tag dir tag user)

unfoldable pub by_file : TmpDir → Str → Bool → Str → Bool × Str × Str → Option Target
unfolding by_tag
by_file dir path is_post id (true, user, tag) =
    some (record { conf_path_with_id = path; user = user; id = id; tag = tag })
by_file dir path is_post id (false, user, tag) = by_tag dir path is_post user id id

-- `conf_path_with_id` begins with one byte, behind which the id stands up to a '/'.
unfoldable pub locate : TmpDir → Bool → Str → Str → Option Target
unfolding by_file named_id
locate dir is_post user path =
    let rest = drop (length conf_req_root + 1) path in
    let id = named_id rest (find (codes "/") rest) in
    if ltb (length conf_req_root) (length path)
    then by_file dir (drop (length conf_req_root) path) is_post id
        (read_conf_modify_file dir id user [])
    else some (record { conf_path_with_id = []; user = user; id = []; tag = [] })

-- DELETE: the session is discarded and torn down.
unfoldable pub remove : ConfHost → Session → Target → World → Reply
unfolding answer discard_session
remove host s t w =
    let s' = message_body none (codes " ") s in
    if not (str_eq t.user s.user)
    then answer validation_failure s w
    else done (
      if host.debug then respond http_body (codes "delete configuration mode data") s' else s',
      discard_session host t.id true w,
    )

unfoldable pub by_method : ConfHost → Session → Str → Str → World → Option Target → Reply
unfolding answer remove
by_method host s path method w none = answer validation_failure s w
by_method host s path method w (some t) =
    if str_eq method (codes "GET")
    then (if str_eq path conf_req_root
        then list_sessions host s w
        else describe host s t.conf_path_with_id t.user t.id w)
    else if str_eq method (codes "PUT")
    then edit host s t.conf_path_with_id t.user t.id w
    else if str_eq method (codes "DELETE")
    then remove host s t w
    else if str_eq method (codes "POST")
    then post host s t.conf_path_with_id t.user t.id t.tag w
    else answer validation_failure s w

abbrev pub configures : AccessLevel → Bool
configures vyattacfg = true
configures vyattaop = false
configures vyattaservice_user = false

-- process(session)
unfoldable pub process : ConfHost → Session → World → Reply
unfolding answer locate by_method
process host s w =
    let path = get http_req_uri s.request in
    let method = get http_req_method s.request in
    let sA = vyatta_debug (codes "CONF:A") s in
    let sB = vyatta_debug (codes "CONF:B") sA in
    if is_none s.auth_type
    then answer authorization_failure s w
    else if empty path
    then answer validation_failure (vyatta_debug (codes "conf:1") sA) w
    else if ltb (length path) (length conf_req_root)
    then answer validation_failure sA w
    else if empty method
    then answer validation_failure sA w
    else if not (configures s.access_level)
    then answer authorization_failure sB w
    else by_method host sB path method w (locate w.dir (str_eq method (codes "POST")) s.user path)
