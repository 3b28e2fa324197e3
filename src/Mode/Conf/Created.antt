-- ===== src/Mode/Conf/Created.antt =====
-- A POST to /rest/conf/<description> in src/server/confmode.cc: the new configuration session.
use vyatta_rest.Prelude.{◌≡◌, ◌≢◌, true, false, [], ◌∷◌, ◌++◌}
use vyatta_rest.Text.{Str, codes}
use vyatta_rest.Rest.Keys.{conf_req_root, http_req_uri, http_req_method, http_resp_location}
use vyatta_rest.Rest.Modify.Found.{Carried}
use vyatta_rest.Rest.Modify.Fresh.{with_file, created}
use vyatta_rest.Http as Http
use vyatta_rest.Http.{Session, get, vyatta_debug, respond, error}
use vyatta_rest.Mode.App.{is_none}
use vyatta_rest.Mode.Conf.{ConfHost, World, conv_conf_id, setup_session}
use vyatta_rest.Mode.Conf.Process.{Target, configures}

-- An authenticated POST of a configuring user to /rest/conf/<t>.
abbrev pub Posts : Session → Str → Type 0
Posts s t =
    (is_none s.auth_type ≡ false)
    × (configures s.access_level ≡ true)
    × (get http_req_uri s.request ≡ conf_req_root ++ b'/' ∷ t)
    × (get http_req_method s.request ≡ codes "POST")

-- What `locate` finds out about a description that is no session's id.
abbrev target : Str → Str → Target
target user t = record { conf_path_with_id = b'/' ∷ t; user = user; id = t; tag = t }

-- The world once the session has been set up.
abbrev set_up_world : ConfHost → World → World
set_up_world host w = (setup_session host (conv_conf_id host.token) w).1

abbrev created_session : Session → Str → Session
created_session s id = error Http.created (respond http_resp_location (codes "rest/conf/" ++ id) s)

module _ (host : ConfHost) (user t : Str) (w : World) (c : Carried user t) (ne : t ≢ []) where
  -- The world with the new session and its modify file.
  abbrev created_world : World
  created_world = record (set_up_world host w) { dir = with_file w.dir host.token user t c ne }

-- The session that a handler of POST gets.
abbrev posted : Session → Session
posted s =
    let sB = vyatta_debug (codes "CONF:B") (vyatta_debug (codes "CONF:A") s) in
    vyatta_debug (codes "CONF:D") (vyatta_debug (codes "CONF:C") sB)
