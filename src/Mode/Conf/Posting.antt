-- ===== src/Mode/Conf/Posting.antt =====
-- The POST and DELETE handlers of src/server/confmode.cc touch only the user's own sessions, and
-- the one that is created.
use vyatta_rest.Prelude.{
  ◌≡◌, ◌⊎◌, inl, inr, refl, ap, sym, ◌∙◌, Bool, true, false, not, ◌&&◌, ◌||◌, [], ◌++◌, Option,
  none, some, ℕ, arith, ltb, length, if◌then◌else◌, Bool-cases, cases_if, either_if,
}
use vyatta_rest.Text.{Str, codes, str_eq, empty, find}
use vyatta_rest.Text.Find.{str_eq_iff}
use vyatta_rest.Outcome.{substr_from}
use vyatta_rest.Http.{
  Session, vyatta_debug, validation_failure, authorization_failure, confmode_dup_desc_error,
}
use vyatta_rest.Rest.Execute.{execute}
use vyatta_rest.Rest.Modify.{
  TmpDir, read_conf_modify_file_from_tag, create_conf_modify_file, put_file,
}
use vyatta_rest.Rest.Modify.Found.{Mine, from_tag-Mine}
use vyatta_rest.Mode.Conf.{
  ConfHost, World, set_up, commits, saves, runs, answer, logged, conv_conf_id, environment,
  escape_text, setup_session,
}
use vyatta_rest.Mode.Conf.Owned.{
  Allowed, Grown, Good, KeepsOthers, stays, Good-done, Good-bind, Grown-logged,
  discard_session-Grown,
}
use vyatta_rest.Mode.Conf.Safety.{answer-Good, Of}
use vyatta_rest.Mode.Conf.Describe.{behind_id}
use vyatta_rest.Mode.Conf.Command.{
  recorded, stored, create_session, create, is_some, configd_text, committed, commit_or_save,
  command_line, escape_output, shown, run_line, act, command_of, looked_up, issue, post_at, post,
}
use vyatta_rest.Mode.Conf.Process.{Target, remove}

pub vyatta_debug-user : (t : Str) (s : Session) → (vyatta_debug t s).user ≡ s.user
unfolding vyatta_debug
vyatta_debug-user t s = ground arith

module _ (d : TmpDir) (host : ConfHost) (user : Str) where
  put_file-KeepsOthers :
      (text : Str) (d0 : TmpDir)
      → d0 ≡ d
      → KeepsOthers d host.token user (put_file host.token text d0)
  unfolding put_file
  put_file-KeepsOthers text d0 e j = elim (Bool-cases (str_eq host.token j)) [
    | inl h ↦ inr (inl (sym ((str_eq_iff host.token j).0 h)))
    | inr h ↦ inl (ap (λ b. if b then some text else d0.content j) h ∙ ap (λ x. x.content j) e)
  ]

  create-KeepsOthers :
      (u description : Str) (d0 : TmpDir)
      → d0 ≡ d
      → KeepsOthers d host.token user (create_conf_modify_file host.token u description d0).1
  unfolding create_conf_modify_file
  create-KeepsOthers u description d0 e =
      let P : Bool × TmpDir → Type 0 = λ p. KeepsOthers d host.token user p.1 in
      either_if P (not (d0.writable host.token)) (λ j. inl (ap (λ x. x.content j) e))
        (either_if P (not (d0.puts host.token)) (put_file-KeepsOthers [] d0 e)
          (put_file-KeepsOthers (u ++ (codes "/" ++ description)) d0 e))

  setup_session-Grown :
      (w : World)
      → w.dir ≡ d
      → Grown d host.token user w.calls (setup_session host (conv_conf_id host.token) w).1
        × ((setup_session host (conv_conf_id host.token) w).1.dir ≡ d)
  unfolding setup_session logged
  setup_session-Grown w e =
      either_if (λ (p : Bool × World). Grown d host.token user w.calls p.1 × (p.1.dir ≡ d))
        (host.connects (conv_conf_id host.token))
        (Grown-logged d host.token user w (set_up (conv_conf_id host.token)) e refl, e)
        (stays d host.token user w.calls w e refl, e)

  stored-Good :
      (s : Session) (w w1 : World) (r : Bool × TmpDir)
      → Grown d host.token user w.calls w1
      → KeepsOthers d host.token user r.1
      → Good d host.token user w.calls (stored s host.token w1 r)
  unfolding stored recorded answer
  stored-Good s w w1 (true, dir') g k =
      Good-done d host.token user w.calls _ (record w1 { dir = dir' }) (g.0, g.1, g.2, k)
  stored-Good s w w1 (false, dir') g k =
      Good-done d host.token user w.calls _ (record w1 { dir = dir' }) (g.0, g.1, g.2, k)

  create_session-Good :
      (s : Session) (description : Str) (w : World)
      → w.dir ≡ d
      → Good d host.token user w.calls (create_session host s description w)
  unfolding create_session
  create_session-Good s description w e =
      let w1 = (setup_session host (conv_conf_id host.token) w).1 in
      let (g, f) = setup_session-Grown w e in
      either_if (Good d host.token user w.calls) (ltb (length host.token) 16)
        (answer-Good d host.token user validation_failure s w e)
        (stored-Good s w w1 _ g (create-KeepsOthers s.user description w1.dir f))

  create-Good :
      (s : Session) (owner description : Str) (w : World)
      → w.dir ≡ d
      → Good d host.token user w.calls (create host s owner description w)
  unfolding create
  create-Good s owner description w e =
      either_if (Good d host.token user w.calls)
        (not (empty description)
          && is_some (read_conf_modify_file_from_tag w.dir description owner))
        (answer-Good d host.token user confmode_dup_desc_error s w e)
        (create_session-Good s description w e)

  shown-Good :
      (s : Session) (command : Str) (w w' : World) (r : ℕ × Str)
      → Grown d host.token user w.calls w'
      → Good d host.token user w.calls (shown host s command w' r)
  unfolding shown
  shown-Good s command w w' (err, out) g =
      Good-bind d host.token user w.calls (escape_output out) _
        (λ text q. Good-done d host.token user w.calls _ w' g)

  run_line-Good :
      (s : Session) (id : Str) (w : World) (o : Option Str)
      → w.dir ≡ d
      → Mine d user id
      → Good d host.token user w.calls (run_line host s (conv_conf_id id) w o)
  unfolding run_line
  run_line-Good s id w none e m = answer-Good d host.token user validation_failure s w e
  run_line-Good s id w (some line) e m =
      let command = environment (conv_conf_id id) ++ (codes ";" ++ (line ++ codes " 2>&1")) in
      shown-Good (vyatta_debug (codes "CONF:H") s) command w
        (logged (runs (conv_conf_id id) command) w) (execute host.shell command (codes " "))
        (Grown-logged d host.token user w (runs (conv_conf_id id) command) e (id, refl, m))

  committed-Good :
      (is_commit : Bool) (command : Str) (w w' : World) (p : Session × Str)
      → Grown d host.token user w.calls w'
      → Good d host.token user w.calls (committed host is_commit command w' p)
  unfolding committed
  committed-Good is_commit command w w' (s, buf) g =
      Good-bind d host.token user w.calls (escape_text _) _
        (λ text q. Good-done d host.token user w.calls _ w' g)

  Allowed-call :
      (is_commit : Bool) (id : Str)
      → Mine d user id
      → Allowed d host.token user
          (if is_commit then commits (conv_conf_id id) else saves (conv_conf_id id))
  Allowed-call true id m = (id, refl, m)
  Allowed-call false id m = (id, refl, m)

  commit_or_save-Good :
      (s : Session) (is_commit : Bool) (id : Str) (w : World)
      → w.dir ≡ d
      → Mine d user id
      → Good d host.token user w.calls (commit_or_save host s is_commit (conv_conf_id id) w)
  unfolding commit_or_save
  commit_or_save-Good s is_commit id w e m =
      let sid = conv_conf_id id in
      let call = if is_commit then commits sid else saves sid in
      either_if (Good d host.token user w.calls) (not (host.connects sid))
        (Good-done d host.token user w.calls s w (stays d host.token user w.calls w e refl))
        (Good-bind d host.token user w.calls
          (configd_text (if is_commit then host.commit sid else host.save sid) s) _
          (λ p q.
            committed-Good is_commit (environment sid) w (logged call w) p
              (Grown-logged d host.token user w call e (Allowed-call is_commit id m))))

  act-Good :
      (s : Session) (id : Str) (w : World) (action : Str)
      → w.dir ≡ d
      → Mine d user id
      → Good d host.token user w.calls (act host s id w action)
  unfolding act
  act-Good s id w action e m =
      let s' = vyatta_debug (codes "CONF:G") s in
      let P = Good d host.token user w.calls in
      either_if P (str_eq action (codes "commit") || str_eq action (codes "save"))
        (commit_or_save-Good s' (str_eq action (codes "commit")) id w e m)
        (either_if P (str_eq action (codes "discard"))
          (Good-done d host.token user w.calls s' _
            (discard_session-Grown d host.token user host id false w e (inr m)))
          (Good-bind d host.token user w.calls (command_line host.unescape action) _
            (λ o q. run_line-Good s' id w o e m)))

  command_of-Good :
      (s : Session) (path owner id : Str) (w : World)
      → w.dir ≡ d
      → s.user ≡ user
      → (owner ≡ user → Mine d user id)
      → Good d host.token user w.calls (command_of host s path owner id w)
  unfolding command_of
  command_of-Good s path owner id w e u m =
      let P = Good d host.token user w.calls in
      cases_if P (not (str_eq owner s.user))
        (λ h. answer-Good d host.token user authorization_failure s w e)
        (λ h. Good-bind d host.token user w.calls (substr_from path 1) _ (λ rest q.
          Good-bind d host.token user w.calls (behind_id path (find (codes "/") rest)) _
            (λ a q'. act-Good s id w a e (m ((str_eq_iff owner s.user).0 (ground arith) ∙ u)))))

  looked_up-Good :
      (s : Session) (path owner tag : Str) (w : World) (o : Option Str)
      → w.dir ≡ d
      → s.user ≡ user
      → read_conf_modify_file_from_tag d tag owner ≡ o
      → Good d host.token user w.calls (looked_up host s path owner w o)
  unfolding looked_up
  looked_up-Good s path owner tag w none e u f =
      answer-Good d host.token user validation_failure s w e
  looked_up-Good s path owner tag w (some id) e u f =
      command_of-Good s path owner id w e u
        (λ h. from_tag-Mine d user tag id (ap (read_conf_modify_file_from_tag d tag) (sym h) ∙ f))

  -- What `process` has found out about the id of a POST: it is the owner's, or no session has it.
  abbrev pub Known : Str → Str → Str → Type 0
  Known owner id tag = (tag ≡ id) ⊎ (owner ≡ user → Mine d user id)

  issue-Good :
      (s : Session) (path owner id tag : Str) (w : World)
      → w.dir ≡ d
      → s.user ≡ user
      → Known owner id tag
      → Good d host.token user w.calls (issue host s path owner id tag w)
  unfolding issue
  issue-Good s path owner id tag w e u k =
      let P = Good d host.token user w.calls in
      cases_if P (str_eq tag id)
        (λ h.
          looked_up-Good s path owner tag w _ e u
            (ap (λ x. read_conf_modify_file_from_tag x tag owner) (sym e)))
        (λ h.
          command_of-Good s path owner id w e u
            (elim k [ inl q ↦ absurd (ground (arith, str_eq_iff tag id)) | inr m ↦ m ]))

  post_at-Good :
      (s : Session) (path owner id tag : Str) (w : World) (rest : Str) (o : Option ℕ)
      → w.dir ≡ d
      → s.user ≡ user
      → Known owner id tag
      → Good d host.token user w.calls (post_at host s path owner id tag w rest o)
  unfolding post_at
  post_at-Good s path owner id tag w rest none e u k =
      create-Good (vyatta_debug (codes "CONF:D") s) owner rest w e
  post_at-Good s path owner id tag w rest (some pos) e u k = issue-Good s path owner id tag w e u k

  pub post-Good :
      (s : Session) (path owner id tag : Str) (w : World)
      → w.dir ≡ d
      → s.user ≡ user
      → Known owner id tag
      → Good d host.token user w.calls (post host s path owner id tag w)
  unfolding post
  post-Good s path owner id tag w e u k =
      let s' = vyatta_debug (codes "CONF:C") s in
      either_if (Good d host.token user w.calls) (empty path)
        (create-Good (vyatta_debug (codes "CONF:D") s') owner [] w e)
        (Good-bind d host.token user w.calls (substr_from path 1) _ (λ rest q.
          post_at-Good s' path owner id tag w rest _ e (vyatta_debug-user (codes "CONF:C") s ∙ u)
            k))

  pub remove-Good :
      (s : Session) (t : Target) (w : World)
      → w.dir ≡ d
      → s.user ≡ user
      → Of d host.token user t.conf_path_with_id t.user t.id
      → Good d host.token user w.calls (remove host s t w)
  unfolding remove
  remove-Good s t w e u o =
      cases_if (Good d host.token user w.calls) (not (str_eq t.user s.user))
        (λ h. answer-Good d host.token user validation_failure s w e)
        (λ h. Good-done d host.token user w.calls _ _ (
          discard_session-Grown d host.token user host t.id true w e (elim o [
            | inl (p, i) ↦ inl i
            | inr m ↦ inr (m ((str_eq_iff t.user s.user).0 (ground arith) ∙ u))
          ])))
