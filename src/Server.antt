-- ===== src/Server.antt =====
-- The server's loop: src/server/main.cc, authenticate.cc, process.cc and command.cc.
pub mod Routing
pub mod Guards
use vyatta_rest.Prelude.{
  ℕ, zero, suc, ◌+◌, Bool, true, false, not, ◌&&◌, ◌||◌, List, [], ◌∷◌, ◌++◌, Option, none, some,
  length, take, ltb, if◌then◌else◌,
}
use vyatta_rest.Text.{Str, codes, empty, starts_with}
use vyatta_rest.Text.Decimal.{strtoul}
use vyatta_rest.Outcome.{Outcome, done, ◌>>=◌}
use vyatta_rest.Rest.Keys.{
  http_req_uri, http_req_authorization, http_req_cookie, http_req_query_string, http_req_method,
  http_req_content_length, http_req_vyatta_specification_version, http_req_accept, http_req_host,
  http_req_pragma, http_body, http_resp_content_type, http_resp_vyatta_specification_version,
  http_resp_cache_control, rest_server_version, max_body_size, conf_req_root, op_req_root,
  app_req_root, perm_req_root, service_req_root,
}
use vyatta_rest.Http.{
  Session, Http, AccessLevel, vyattacfg, vyattaop, vyattaservice_user, get, set, set_opt,
  new_session, respond, vyatta_debug, error, error_with, authorization_failure, validation_failure,
}
use vyatta_rest.Auth.Basic.{Checks, handle as handle_basic, authorized as authorized_basic}
use vyatta_rest.Auth.Session.{Host, handle as handle_session, authorized as authorized_session}
use vyatta_rest.Auth.Lock.{Files, Opening}

-- A handler of requests, over the world W.
abbrev pub Handler : Type 0 → Type 0
Handler W = Session → W → Outcome (Session × W)

-- The modes of class Process.
pub record Modes (W : Type 0) : Type 0 where
  pub app_mode : Handler W
  pub op_mode : Handler W
  pub conf_mode : Handler W
  pub perms : Handler W
  pub service_mode : Handler W

abbrev pub is_service_user : AccessLevel → Bool
is_service_user vyattaservice_user = true
is_service_user vyattacfg = false
is_service_user vyattaop = false

module _ {W : Type 0} (modes : Modes W) where
  -- The mode of a request, by the root of its path.
  unfoldable pub route : Str → Session → W → Outcome (Session × W)
  route path s w =
      let refused = done (error validation_failure s, w) in
      if is_service_user s.access_level
      then (if starts_with service_req_root path then modes.service_mode s w else refused)
      else if starts_with app_req_root path
      then modes.app_mode s w
      else if starts_with op_req_root path
      then modes.op_mode s w
      else if starts_with conf_req_root path
      then modes.conf_mode s w
      else if starts_with perm_req_root path
      then modes.perms s w
      else refused

  -- dispatch(session)
  unfoldable pub dispatch : Session → W → Outcome (Session × W)
  unfolding route
  dispatch session w =
      let s = vyatta_debug (codes "XA") session in
      let path = get http_req_uri s.request in
      let s' = vyatta_debug (codes "XB:" ++ path) s in
      if empty path then done (s, w) else route path s' w

abbrev or_cookie : Str → Str → Str
or_cookie auth cookie = if empty auth then cookie else auth

with_session_files : Files → Bool × Session → Bool × Session × Files
with_session_files f (ok, s) = (ok, s, f)

-- validate(session) of Authenticate: the first scheme, AuthBasic before AuthSession, that handles
-- the header or the cookie decides.
unfoldable pub validate :
    Checks → Host → Opening → Session → Files → Outcome (Bool × Session × Files)
unfolding with_session_files
validate checks host held s f =
    let auth = get http_req_authorization s.request in
    let cookie = get http_req_cookie s.request in
    let val = or_cookie auth cookie in
    let s' = vyatta_debug (codes "AAAA:" ++ val) s in
    let by_session = authorized_session host held val s' f in
    if empty auth && empty cookie
    then done (false, vyatta_debug (codes "AAA") s, f)
    else if handle_basic val
    then done (with_session_files f (authorized_basic checks val s'))
    else if handle_session val
    then by_session
    else done (false, s', f)

-- The environment of a FastCGI request, and what FCGI_getchar reads.
pub record Request : Type 0 where
  pub getenv : Str → Option Str
  pub stdin : Str

unfoldable pub parse_params : Request → Http → Http
parse_params r h = set_opt http_req_pragma (r.getenv (codes "HTTP_PRAGMA")) (
    set_opt http_req_host (r.getenv (codes "HOST")) (
      set_opt http_req_accept (r.getenv (codes "ACCEPT")) (
        set_opt http_req_vyatta_specification_version
          (r.getenv (codes "VYATTA_SPECIFICATION_VERSION"))
          (set_opt http_req_cookie (r.getenv (codes "HTTP_COOKIE")) (
            set_opt http_req_authorization (r.getenv (codes "HTTP_AUTHORIZATION")) (
              set_opt http_req_content_length (r.getenv (codes "CONTENT_LENGTH")) (
                set_opt http_req_accept (r.getenv (codes "ACCEPT")) (
                  set_opt http_req_method (r.getenv (codes "REQUEST_METHOD")) (
                    set_opt http_req_query_string (r.getenv (codes "QUERY_STRING"))
                      (set_opt http_req_uri (r.getenv (codes "REQUEST_URI")) h))))))))))

-- The body, up to the end of the input; false with an error when it is announced as too large.
unfoldable pub parse_body : Request → Session → Str → Bool × Session
parse_body r s slen =
    if empty slen
    then (true, s)
    else let len = strtoul slen in
      if ltb max_body_size len
      then (
        false,
        error_with validation_failure (codes "Request body exceeds maximum allowable size") s,
      )
      else (true, record s { request = set http_body (take len r.stdin) s.request })

-- parse(session)
unfoldable pub parse : Request → Session → Bool × Session
unfolding parse_body
parse r session =
    let s = record session { request = parse_params r session.request } in
    parse_body r s (get http_req_content_length s.request)

-- The session that main sets up.
unfoldable pub opened : Bool → Session
opened debug = vyatta_debug (codes "A") (
    respond http_resp_cache_control (codes "no-cache") (
      respond http_resp_vyatta_specification_version rest_server_version
        (respond http_resp_content_type (codes "application/json") (new_session debug))))

-- validate(session) of Command accepts every request.
abbrev pub command_validate : Session → Bool
command_validate s = true

module _ {W : Type 0} (modes : Modes W) where
  unfoldable pub after_auth : W → Bool × Session × Files → Outcome (Session × W × Files)
  after_auth w (false, s, f) = done (error authorization_failure s, w, f)
  after_auth w (true, s, f) = do
    (s', w') ← dispatch modes (vyatta_debug (codes "E") s) w
    done (s', w', f)

  unfoldable pub after_parse :
      Checks → Host → Opening → W → Files → Bool × Session → Outcome (Session × W × Files)
  unfolding dispatch validate after_auth
  after_parse checks host held w f (false, s) = do (s', w') ← dispatch modes s w; done (s', w', f)
  after_parse checks host held w f (true, s) =
      let s' = vyatta_debug (codes "C") (vyatta_debug (codes "B") s) in
      let checked = validate checks host held (vyatta_debug (codes "D") s') f >>= after_auth w in
      if command_validate s' then checked else done (s', w, f)

  -- One round of main's loop, up to the session whose response is written.
  unfoldable pub serve :
      Checks → Host → Opening → Bool → Request → W → Files → Outcome (Session × W × Files)
  unfolding parse opened after_parse
  serve checks host held debug r w f = after_parse checks host held w f (parse r (opened debug))
