-- ===== src/Server/Routing.antt =====
-- Which mode of class Process a request can reach (src/server/process.cc).
use vyatta_rest.Prelude.{◌≡◌, refl, ap, sym, ◌∙◌, ◌++◌, if◌then◌else◌, ◌≢◌, false, arith}
use vyatta_rest.Outcome.{done}
use vyatta_rest.Rest.Keys.{http_req_uri}
use vyatta_rest.Text.{empty, codes, Str}
use vyatta_rest.Http.{
  Session, get, AccessLevel, vyatta_debug, vyattacfg, vyattaop, vyattaservice_user,
}
use vyatta_rest.Server.{Modes, dispatch, route, is_service_user}

vyatta_debug-access_level :
    (t : Str) (s : Session) → (vyatta_debug t s).access_level ≡ s.access_level
unfolding vyatta_debug
vyatta_debug-access_level t s = ground arith

is_service_user_not : (a : AccessLevel) → a ≢ vyattaservice_user → is_service_user a ≡ false
is_service_user_not vyattacfg n = refl
is_service_user_not vyattaop n = refl
is_service_user_not vyattaservice_user n = absurd (n refl)

module _ {W : Type 0} (m m' : Modes W) where
  route_service :
      (path : Str) (s : Session) (w : W)
      → s.access_level ≡ vyattaservice_user
      → m.service_mode ≡ m'.service_mode
      → route m path s w ≡ route m' path s w
  unfolding route
  route_service path s w h e = rw (h, e)

  route_other :
      (path : Str) (s : Session) (w : W)
      → is_service_user s.access_level ≡ false
      → m.app_mode ≡ m'.app_mode
      → m.op_mode ≡ m'.op_mode
      → m.conf_mode ≡ m'.conf_mode
      → m.perms ≡ m'.perms
      → route m path s w ≡ route m' path s w
  unfolding route
  route_other path s w h a o c p = rw (h, a, o, c, p)

  -- For a service user's request, two servers with the same service mode do the same, whatever
  -- their other modes are; for any other request, so do two servers that may differ in the service
  -- mode only.
  pub dispatch_separates :
      (s : Session) (w : W)
      → (s.access_level ≡ vyattaservice_user
          → m.service_mode ≡ m'.service_mode
          → dispatch m s w ≡ dispatch m' s w)
        × (s.access_level ≢ vyattaservice_user
            → m.app_mode ≡ m'.app_mode
            → m.op_mode ≡ m'.op_mode
            → m.conf_mode ≡ m'.conf_mode
            → m.perms ≡ m'.perms
            → dispatch m s w ≡ dispatch m' s w)
  unfolding dispatch route
  dispatch_separates s w =
      let s1 = vyatta_debug (codes "XA") s in
      let path = get http_req_uri s1.request in
      let s2 = vyatta_debug (codes "XB:" ++ path) s1 in
      let kept =
        vyatta_debug-access_level (codes "XB:" ++ path) s1
        ∙ vyatta_debug-access_level (codes "XA") s in
      (
        (λ h e.
            ap (λ r. if empty path then done (s1, w) else r)
              (route_service path s2 w (kept ∙ h) e)),
        λ n a o c p.
            ap (λ r. if empty path then done (s1, w) else r)
              (route_other path s2 w (is_service_user_not s2.access_level (λ q. n (sym kept ∙ q))) a
                o c p),
      )
