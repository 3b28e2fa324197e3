-- ===== src/Server/Guards.antt =====
-- What a request that is not authenticated can do (src/server/main.cc, process.cc, appmode.cc,
-- servicemode.cc and permissions.cc).
use vyatta_rest.Prelude.{
  [], ◌≡◌, ◌≢◌, either_if, refl, ap, ◌∙◌, ltb, ◌++◌, Bool, true, false, ℕ, some, arith,
}
use vyatta_rest.Text.{codes, empty, starts_with, Str}
use vyatta_rest.Outcome.{Outcome, done, ◌>>=◌, >>=-eq-done}
use vyatta_rest.Text.Decimal.{strtoul}
use vyatta_rest.Rest.Keys.{
  max_body_size, conf_req_root, op_req_root, app_req_root, perm_req_root, service_req_root,
  http_req_uri, auth_type_none, http_resp_code,
}
use vyatta_rest.Http.{
  get, ErrorType, Session, vyatta_debug, error, error_with, validation_failure,
  authorization_failure,
}
use vyatta_rest.Http.Errors.{error_lem}
use vyatta_rest.Mode.{System}
use vyatta_rest.Mode.App.{process as app_process}
use vyatta_rest.Mode.Service.{Tree, process as service_process}
use vyatta_rest.Mode.Op.{OpHost, answer, process as op_process}
use vyatta_rest.Mode.Permissions.{Daemons, process as perms_process}
use vyatta_rest.Mode.Conf.{ConfHost, answer as conf_answer}
use vyatta_rest.Mode.Conf.Process.{process as conf_process}
use vyatta_rest.Auth.Basic.{Checks}
use vyatta_rest.Auth.Session.{Host}
use vyatta_rest.Auth.Lock.{Files, Opening}
use vyatta_rest.Server.{
  after_parse, parse_params, after_auth, parse_body, Request, parse, validate, serve, Modes,
  Handler, dispatch, route, opened, is_service_user,
}

-- A handler that answers 401 to a session that is not authenticated, and leaves the world as it is.
abbrev pub Refuses : {W : Type 0} → Handler W → Type 0
Refuses {W} h =
    (s : Session) (w : W)
    → s.auth_type ≡ auth_type_none
    → (s' : Session) × (h s w ≡ done (s', w))
      × (s'.response.params http_resp_code ≡ some (codes "401"))

vyatta_debug-auth_type : (t : Str) (s : Session) → (vyatta_debug t s).auth_type ≡ s.auth_type
unfolding vyatta_debug
vyatta_debug-auth_type t s = ground arith

-- Each of the application, service, permission, configuration and operational modes answers 401 to
-- a session that is not authenticated, and leaves the world as it is: no command runs, no file is
-- written, no configuration session is touched, and no message is sent to the daemon.
pub modes-Refuses :
    {W : Type 0} (system : System W) (tree : Tree) (fuel : ℕ) (d : Daemons) (host : OpHost)
    (conf : ConfHost)
    → Refuses (app_process system)
      × Refuses (service_process system tree fuel)
      × Refuses (λ s (w : W). perms_process d s >>= λ s'. done (s', w))
      × Refuses (conf_process conf)
      × ((s : Session)
          → s.auth_type ≡ auth_type_none
          → (s' : Session) × (op_process host s ≡ done (s', []))
            × (s'.response.params http_resp_code ≡ some (codes "401")))
unfolding app_process service_process perms_process op_process answer conf_process conf_answer
modes-Refuses system tree fuel d host conf = (
  (λ s w h. (
    error authorization_failure (vyatta_debug (codes "XC") s),
    rw (vyatta_debug-auth_type (codes "XC") s, h),
    (error_lem authorization_failure (vyatta_debug (codes "XC") s)).0,
  )),
  (λ s w h. (error authorization_failure s, rw h, (error_lem authorization_failure s).0)),
  (λ s w h. (error authorization_failure s, rw h, (error_lem authorization_failure s).0)),
  (λ s w h. (error authorization_failure s, rw h, (error_lem authorization_failure s).0)),
  λ s h. (error authorization_failure s, rw h, (error_lem authorization_failure s).0),
)

-- The modes of a server that each refuse a session that is not authenticated.
abbrev pub AllRefuse : {W : Type 0} → Modes W → Type 0
AllRefuse m =
    Refuses m.app_mode
    × Refuses m.op_mode
    × Refuses m.conf_mode
    × Refuses m.perms
    × Refuses m.service_mode

abbrev Leaves : {W : Type 0} → W → Outcome (Session × W) → Type 0
Leaves w o = (s' : Session) × (o ≡ done (s', w))

Refuses-Leaves :
    {W : Type 0} (h : Handler W)
    → Refuses h
    → (s : Session) (w : W) → s.auth_type ≡ auth_type_none
    → Leaves w (h s w)
Refuses-Leaves h r s w e = let (s', q, c) = r s w e in (s', q)

route-Leaves :
    {W : Type 0} (m : Modes W) (path : Str) (s : Session) (w : W)
    → AllRefuse m
    → s.auth_type ≡ auth_type_none
    → Leaves w (route m path s w)
unfolding route
route-Leaves m path s w (a, o, c, p, v) h =
    let no : Leaves w (done (error validation_failure s, w)) = (error validation_failure s, refl) in
    either_if (Leaves w) (is_service_user s.access_level)
      (either_if (Leaves w) (starts_with service_req_root path)
        (Refuses-Leaves m.service_mode v s w h) no)
      (either_if (Leaves w) (starts_with app_req_root path) (Refuses-Leaves m.app_mode a s w h) (
        either_if (Leaves w) (starts_with op_req_root path) (Refuses-Leaves m.op_mode o s w h) (
          either_if (Leaves w) (starts_with conf_req_root path) (Refuses-Leaves m.conf_mode c s w h)
            (either_if (Leaves w) (starts_with perm_req_root path) (Refuses-Leaves m.perms p s w h)
              no))))

-- A session that was opened but not authenticated: `dispatch` leaves the world as it is.
dispatch-Leaves :
    {W : Type 0} (m : Modes W) (s : Session) (w : W)
    → AllRefuse m
    → s.auth_type ≡ auth_type_none
    → Leaves w (dispatch m s w)
unfolding dispatch
dispatch-Leaves m s w r h =
    let s1 = vyatta_debug (codes "XA") s in
    let path = get http_req_uri s1.request in
    let s2 = vyatta_debug (codes "XB:" ++ path) s1 in
    either_if (Leaves w) (empty path) (s1, refl)
      (route-Leaves m path s2 w r (
        vyatta_debug-auth_type (codes "XB:" ++ path) s1
        ∙ (vyatta_debug-auth_type (codes "XA") s ∙ h)))

error_with-auth_type :
    (type : ErrorType) (msg : Str) (s : Session) → (error_with type msg s).auth_type ≡ s.auth_type
unfolding error_with
error_with-auth_type type msg s = ground arith

opened-auth_type : (debug : Bool) → (opened debug).auth_type ≡ auth_type_none
unfolding opened
opened-auth_type debug = vyatta_debug-auth_type (codes "A") _

parse_body-auth_type :
    (r : Request) (s : Session) (slen : Str) → (parse_body r s slen).1.auth_type ≡ s.auth_type
unfolding parse_body
parse_body-auth_type r s slen =
    either_if (λ (p : Bool × Session). p.1.auth_type ≡ s.auth_type) (empty slen) refl
      (either_if (λ (p : Bool × Session). p.1.auth_type ≡ s.auth_type)
        (ltb max_body_size (strtoul slen))
        (error_with-auth_type validation_failure
          (codes "Request body exceeds maximum allowable size") s)
        refl)

parse-auth_type : (r : Request) (s : Session) → (parse r s).1.auth_type ≡ s.auth_type
unfolding parse
parse-auth_type r s = parse_body-auth_type r (record s { request = parse_params r s.request }) _

module _ {W : Type 0} (m : Modes W) where
  after_auth_lem :
      (w : W) (p : Bool × Session × Files) {s' : Session} {w' : W} {f' : Files}
      → after_auth m w p ≡ done (s', w', f')
      → w' ≢ w
      → (p ≡ (true, p.1, f')) × (dispatch m (vyatta_debug (codes "E") p.1) w ≡ done (s', w'))
  unfolding after_auth
  after_auth_lem w (false, s, f) {s'} {w'} {f'} q n = absurd (n cc)
  after_auth_lem w (true, s, f) {s'} {w'} {f'} q n =
      let (x, e, e') = >>=-eq-done (dispatch m (vyatta_debug (codes "E") s) w) _ q in (cc, cc)

  after_parse_lem :
      AllRefuse m
      → (checks : Checks) (host : Host) (held : Opening) (w : W) (f : Files) (p : Bool × Session)
      → p.1.auth_type ≡ auth_type_none
      → {s' : Session} {w' : W} {f' : Files}
      → after_parse m checks host held w f p ≡ done (s', w', f')
      → w' ≢ w
      → (s1 : Session) × (validate checks host held
            (vyatta_debug (codes "D") (vyatta_debug (codes "C") (vyatta_debug (codes "B") p.1)))
            f
          ≡ done (true, s1, f'))
        × (dispatch m (vyatta_debug (codes "E") s1) w ≡ done (s', w'))
  unfolding after_parse
  after_parse_lem all checks host held w f (false, s) h {s'} {w'} {f'} q n =
      let (x, e) = dispatch-Leaves m s w all h in absurd (n cc)
  after_parse_lem all checks host held w f (true, s) h {s'} {w'} {f'} q n =
      let (x, e, e') = >>=-eq-done _ (after_auth m w) q in
      let (e1, e2) = after_auth_lem w x e' n in (x.1, e ∙ ap done e1, e2)

  -- If a round of the server's loop ends and changes the world that the modes act on, then
  -- Authenticate::validate accepted the session of the parsed request, and the change is that of
  -- `dispatch` on the session that validate left. The modes are any that refuse a session that is
  -- not authenticated.
  pub serve_changes :
      AllRefuse m
      → (checks : Checks) (host : Host) (held : Opening) (debug : Bool) (r : Request) (w : W)
        (f : Files) {s' : Session} {w' : W} {f' : Files}
      → serve m checks host held debug r w f ≡ done (s', w', f')
      → w' ≢ w
      → (s1 : Session) × (validate checks host held
            (vyatta_debug
              (codes "D")
              (vyatta_debug (codes "C") (vyatta_debug (codes "B") (parse r (opened debug)).1)))
            f
          ≡ done (true, s1, f'))
        × (dispatch m (vyatta_debug (codes "E") s1) w ≡ done (s', w'))
  unfolding serve
  serve_changes all checks host held debug r w f q n =
      after_parse_lem all checks host held w f (parse r (opened debug))
        (parse-auth_type r (opened debug) ∙ opened-auth_type debug) q n
