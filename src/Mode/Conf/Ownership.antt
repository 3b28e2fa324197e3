-- ===== src/Mode/Conf/Ownership.antt =====
-- A request to the configuration mode of src/server/confmode.cc touches only the user's own
-- sessions, and the one that it creates.
use vyatta_rest.Prelude.{
  ◌≡◌, inl, inr, refl, ap, sym, subst, ◌∙◌, Bool, true, false, not, [], Option, none, some, ltb,
  length, drop, cases_if, either_if,
}
use vyatta_rest.Text.{Str, codes, str_eq, empty}
use vyatta_rest.Text.Find.{str_eq_iff}
use vyatta_rest.Outcome.{done}
use vyatta_rest.Http.{
  Session, ErrorType, vyatta_debug, validation_failure, authorization_failure, get,
}
use vyatta_rest.Rest.Keys.{conf_req_root, http_req_uri, http_req_method}
use vyatta_rest.Rest.Modify.{TmpDir, read_conf_modify_file, read_conf_modify_file_from_tag}
use vyatta_rest.Rest.Modify.Found.{Mine, from_tag-Mine}
use vyatta_rest.Mode.App.{is_none}
use vyatta_rest.Mode.Conf.{ConfHost, World, answer}
use vyatta_rest.Mode.Conf.Owned.{Grown, Good}
use vyatta_rest.Mode.Conf.Safety.{answer-Good, list_sessions-Good, describe-Good, Of, edit-Good}
use vyatta_rest.Mode.Conf.Posting.{vyatta_debug-user, Known, post-Good, remove-Good}
use vyatta_rest.Mode.Conf.Process.{
  Target, found_by_tag, by_tag, by_file, locate, by_method, configures, process,
}

module _ (d : TmpDir) (host : ConfHost) (user : Str) where
  -- What `locate` has found for a method that is POST or is not.
  Ready : Bool → Target → Type 0
  Ready true t = Known d host user t.user t.id t.tag
  Ready false t = Of d host.token user t.conf_path_with_id t.user t.id

  abbrev ReadyIf : Bool → Option Target → Type 0
  ReadyIf b none = Unit
  ReadyIf b (some t) = Ready b t

  found_by_tag-Ready :
      (path owner tag : Str) (o : Option Str)
      → read_conf_modify_file_from_tag d tag owner ≡ o
      → ReadyIf false (found_by_tag path owner tag o)
  unfolding found_by_tag Ready
  found_by_tag-Ready path owner tag none e = tt
  found_by_tag-Ready path owner tag (some id) e =
      inr (λ h. from_tag-Mine d user tag id (ap (read_conf_modify_file_from_tag d tag) (sym h) ∙ e))

  by_tag-Ready : (path owner tag : Str) (b : Bool) → ReadyIf b (by_tag d path b owner tag tag)
  unfolding by_tag Ready
  by_tag-Ready path owner tag true = inl refl
  by_tag-Ready path owner tag false = found_by_tag-Ready path owner tag _ refl

  Mine-file :
      (id owner tag : Str)
      → read_conf_modify_file d id user [] ≡ (true, owner, tag)
      → owner ≡ user
      → Mine d user id
  Mine-file id owner tag e h = (tag, e ∙ ap (λ u. (true, u, tag)) h)

  by_file-Ready :
      (path id : Str) (b : Bool) (r : Bool × Str × Str)
      → read_conf_modify_file d id user [] ≡ r
      → ReadyIf b (by_file d path b id r)
  unfolding by_file Ready
  by_file-Ready path id true (true, owner, tag) f = inr (Mine-file id owner tag f)
  by_file-Ready path id false (true, owner, tag) f = inr (Mine-file id owner tag f)
  by_file-Ready path id b (false, owner, tag) f = by_tag-Ready path owner id b

  root-Ready :
      (b : Bool)
      → ReadyIf b (some (record { conf_path_with_id = []; user = user; id = []; tag = [] }))
  unfolding Ready
  root-Ready true = inl refl
  root-Ready false = inl (refl, refl)

  locate-Ready : (b : Bool) (path : Str) → ReadyIf b (locate d b user path)
  unfolding locate
  locate-Ready b path =
      either_if (ReadyIf b) (ltb (length conf_req_root) (length path))
        (by_file-Ready (drop (length conf_req_root) path) _ b _ refl) (root-Ready b)

  Ready-Of :
      (t : Target) (method name : Str)
      → str_eq method name ≡ true
      → str_eq name (codes "POST") ≡ false
      → ReadyIf (str_eq method (codes "POST")) (some t)
      → Of d host.token user t.conf_path_with_id t.user t.id
  unfolding Ready
  Ready-Of t method name h k r =
      subst (λ b. ReadyIf b (some t))
        (ap (λ m. str_eq m (codes "POST")) ((str_eq_iff method name).0 h) ∙ k) r

  by_method-Good :
      (s : Session) (path method : Str) (w : World) (o : Option Target)
      → w.dir ≡ d
      → s.user ≡ user
      → ReadyIf (str_eq method (codes "POST")) o
      → Good d host.token user w.calls (by_method host s path method w o)
  unfolding by_method str_eq Ready
  by_method-Good s path method w none e u r = answer-Good d host.token user validation_failure s w e
  by_method-Good s path method w (some t) e u r =
      let P = Good d host.token user w.calls in
      cases_if P (str_eq method (codes "GET"))
        (λ h.
          either_if P (str_eq path conf_req_root)
            (list_sessions-Good d host.token user host s w e u)
            (describe-Good d host.token user host s t.conf_path_with_id t.user t.id w e u
              (Ready-Of t method (codes "GET") h refl r)))
        (λ h.
          cases_if P (str_eq method (codes "PUT"))
            (λ k.
              edit-Good d host.token user host s t.conf_path_with_id t.user t.id w e u
                (Ready-Of t method (codes "PUT") k refl r))
            (λ k.
              cases_if P (str_eq method (codes "DELETE"))
                (λ l.
                  remove-Good d host user s t w e u (Ready-Of t method (codes "DELETE") l refl r))
                (λ l.
                  cases_if P (str_eq method (codes "POST"))
                    (λ m.
                      post-Good d host user s t.conf_path_with_id t.user t.id t.tag w e u
                        (subst (λ b. ReadyIf b (some t)) m r))
                    (λ m. answer-Good d host.token user validation_failure s w e))))

-- A request of a user makes calls only on configuration sessions whose modify file names that user
-- or nobody, and sets up only the session of the new token; and it leaves every modify file as it
-- was but those of the user, those that name nobody, and the new token's.
pub process_owns :
    (host : ConfHost) (s : Session) (w : World) {s' : Session} {w' : World}
    → process host s w ≡ done (s', w')
    → Grown w.dir host.token s.user w.calls w'
unfolding process
process_owns host s w {s'} {w'} h =
    let P = Good w.dir host.token s.user w.calls in
    let path = get http_req_uri s.request in
    let method = get http_req_method s.request in
    let sA = vyatta_debug (codes "CONF:A") s in
    let sB = vyatta_debug (codes "CONF:B") sA in
    let refused : (type : ErrorType) (x : Session) → P (answer type x w) =
      λ type x. answer-Good w.dir host.token s.user type x w refl in
    either_if P (is_none s.auth_type) (refused authorization_failure s)
      (either_if P (empty path) (refused validation_failure (vyatta_debug (codes "conf:1") sA)) (
        either_if P (ltb (length path) (length conf_req_root)) (refused validation_failure sA) (
          either_if P (empty method) (refused validation_failure sA) (
            either_if P (not (configures s.access_level)) (refused authorization_failure sB) (
              by_method-Good w.dir host s.user sB path method w _ refl
                (vyatta_debug-user (codes "CONF:B") sA ∙ vyatta_debug-user (codes "CONF:A") s)
                (locate-Ready w.dir host s.user (str_eq method (codes "POST")) path))))))
      s' w' h
