-- ===== src/Mode/Conf/Safety.antt =====
-- The handlers of src/server/confmode.cc touch only the user's own sessions.
use vyatta_rest.Prelude.{
  ◌≡◌, ◌⊎◌, inl, inr, refl, ap, sym, subst, ◌∙◌, Bool, true, false, not, List, [], ◌∷◌, ◌++◌,
  Option, none, some, ℕ, ◌+◌, ◌==◌, arith, All, append-nil, append_assoc, ltb, length, drop,
  cases_if, either_if,
}
use vyatta_rest.Text.{Str, codes, str_eq, empty, starts_with, find, substr_from?}
use vyatta_rest.Text.Find.{str_eq_iff}
use vyatta_rest.Outcome.{done, substr_from}
use vyatta_rest.Json.{Json, add_value, new_json}
use vyatta_rest.Http.{
  Session, ErrorType, validation_failure, authorization_failure, server_error, command_not_found,
}
use vyatta_rest.Rest.Modify.{TmpDir, read_conf_modify_file}
use vyatta_rest.Rest.Modify.Found.{Mine, read-Mine}
use vyatta_rest.Configuration.{TemplateParams}
use vyatta_rest.Rest.Cli.{translate_rest_to_cli}
use vyatta_rest.Mode.Conf.{
  ConfHost, World, Call, asks_changed, runs, reads_node, answer, logged, conv_conf_id, escape_text,
  is_configd_sess_changed,
}
use vyatta_rest.Mode.Conf.Owned.{Allowed, Grown, Good, stays, Good-done, Good-bind, Grown-logged}
use vyatta_rest.Mode.Conf.Listing.{
  list_owned, list_read, list_entry, list_entries, list_sessions, listed,
}
use vyatta_rest.Mode.Conf.Describe.{describe, described, node_json, behind_id, without_blank}
use vyatta_rest.Mode.Conf.Edit.{edit, edit_at, edit_path, run_edit, edited}

module _ (d : TmpDir) (tok user : Str) where
  pub answer-Good :
      (type : ErrorType) (s : Session) (w : World)
      → w.dir ≡ d
      → Good d tok user w.calls (answer type s w)
  unfolding answer
  answer-Good type s w e = Good-done d tok user w.calls _ w (stays d tok user w.calls w e refl)

  -- The listing only asks sessions whether they have changes.
  Asked : World → World → Type 0
  Asked w w' =
      (new : List Call) × (w'.calls ≡ w.calls ++ new)
      × All (Allowed d tok user) new
      × (w'.dir ≡ w.dir)

  Asked-refl : (w : World) → Asked w w
  unfolding Asked
  Asked-refl w = ([], sym (append-nil w.calls), tt, refl)

  All-append :
      (xs ys : List Call)
      → All (Allowed d tok user) xs
      → All (Allowed d tok user) ys
      → All (Allowed d tok user) (xs ++ ys)
  All-append [] ys a b = b
  All-append (x ∷ xs) ys a b = (a.0, All-append xs ys a.1 b)

  Asked-trans : (a b c : World) → Asked a b → Asked b c → Asked a c
  unfolding Asked
  Asked-trans a b c (n, p, x, q) (m, r, y, s) =
      (n ++ m, r ∙ (ap (λ l. l ++ m) p ∙ append_assoc a.calls n m), All-append n m x y, s ∙ q)

  changed-Asked :
      (host : ConfHost) (id : Str) (w : World)
      → Mine d user id
      → Asked w (is_configd_sess_changed host (conv_conf_id id) w).1
  unfolding is_configd_sess_changed logged Asked
  changed-Asked host id w m =
      either_if (λ (p : Bool × World). Asked w p.1) (host.connects (conv_conf_id id))
        (asks_changed (conv_conf_id id) ∷ [], refl, ((id, refl, m), tt), refl) (Asked-refl w)

  list_read-Asked :
      (host : ConfHost) (name id : Str) (j : Json) (w : World) (r : Bool × Str × Str)
      → read_conf_modify_file d id [] [] ≡ r
      → Asked w (list_read host user name id j w r).1
  unfolding list_read list_owned
  list_read-Asked host name id j w (false, u, t) e = Asked-refl w
  list_read-Asked host name id j w (true, u, t) e =
      cases_if (λ (p : Json × World). Asked w p.1) (not (str_eq u user)) (λ h. Asked-refl w)
        (λ h. changed-Asked host id w (
          read-Mine d id [] [] user t
            (e ∙ ap (λ x. (true, x, t)) ((str_eq_iff u user).0 (ground arith)))))

  list_entry-Asked :
      (host : ConfHost) (name : Str) (j : Json) (w : World)
      → w.dir ≡ d
      → Asked w (list_entry host user name j w).1
  unfolding list_entry
  list_entry-Asked host name j w e =
      let P : Json × World → Type 0 = λ p. Asked w p.1 in
      either_if P (ltb (length name) 22) (Asked-refl w) (
        either_if P (starts_with (codes ".vyattamodify_") name)
          (list_read-Asked host name (drop 14 name) j w _
            (ap (λ x. read_conf_modify_file x (drop 14 name) [] []) (sym e)))
          (Asked-refl w))

  list_entries-Asked :
      (host : ConfHost) (names : List Str) (j : Json) (w : World)
      → w.dir ≡ d
      → Asked w (list_entries host user names j w).1
  unfolding list_entries
  list_entries-Asked host [] j w e = Asked-refl w
  list_entries-Asked host (name ∷ names) j w e =
      let r = list_entry host user name j w in
      let a = list_entry-Asked host name j w e in
      Asked-trans w r.1 _ a (list_entries-Asked host names r.0 r.1 (unfold Asked in a.3 ∙ e))

  Asked-Grown : (w w' : World) → w.dir ≡ d → Asked w w' → Grown d tok user w.calls w'
  unfolding Asked
  Asked-Grown w w' e (n, p, a, q) = (n, p, a, λ j. inl (ap (λ x. x.content j) (q ∙ e)))

  pub list_sessions-Good :
      (host : ConfHost) (s : Session) (w : World)
      → w.dir ≡ d
      → s.user ≡ user
      → Good d tok user w.calls (list_sessions host s w)
  unfolding list_sessions listed
  list_sessions-Good host s w e u =
      let j = add_value (codes "message") (codes " ") new_json in
      let r = list_entries host s.user w.dir.names j w in
      either_if (Good d tok user w.calls) (not w.dir.opens) (answer-Good server_error s w e) (
        Good-done d tok user w.calls (listed s r).0 r.1 (
          Asked-Grown w r.1 e (
            subst (λ x. Asked w (list_entries host x w.dir.names j w).1) (sym u)
              (list_entries-Asked host w.dir.names j w e))))

  described-Good :
      (host : ConfHost) (s : Session) (cs : List Call) (w : World) (o : Option TemplateParams)
      → Grown d tok user cs w
      → Good d tok user cs (described host s w o)
  unfolding described answer
  described-Good host s cs w none g = Good-done d tok user cs _ w g
  described-Good host s cs w (some p) g =
      Good-bind d tok user cs (node_json host.escape p) _ (λ j q. Good-done d tok user cs _ w g)

  edited-Good :
      (s : Session) (w w' : World) (r : ℕ × Str)
      → Grown d tok user w.calls w'
      → Good d tok user w.calls (edited s w' r)
  unfolding edited
  edited-Good s w w' (err, out) g =
      either_if (Good d tok user w.calls) (err == 0) (Good-done d tok user w.calls s w' g) (
        Good-bind d tok user w.calls (escape_text out) _
          (λ text q. Good-done d tok user w.calls _ w' g))

  run_edit-Good :
      (host : ConfHost) (s : Session) (id : Str) (w : World) (cmd : Str) (o : Option Str)
      → w.dir ≡ d
      → Mine d user id
      → Good d tok user w.calls (run_edit host s (conv_conf_id id) w cmd o)
  unfolding run_edit
  run_edit-Good host s id w cmd none e m = answer-Good command_not_found _ w e
  run_edit-Good host s id w cmd (some line) e m =
      edited-Good s w _ _ (Grown-logged d tok user w (runs (conv_conf_id id) _) e (id, refl, m))

  edit_at-Good :
      (host : ConfHost) (s : Session) (path id : Str) (w : World) (o : Option ℕ)
      → w.dir ≡ d
      → Mine d user id
      → Good d tok user w.calls (edit_at host s path id w o)
  unfolding edit_at edit_path
  edit_at-Good host s path id w none e m = answer-Good validation_failure s w e
  edit_at-Good host s path id w (some pos) e m =
      either_if (Good d tok user w.calls) (ltb (length path) 2)
        (answer-Good validation_failure s w e)
        (Good-bind d tok user w.calls (substr_from path (pos + 2)) _ (λ conf_path q.
          Good-bind d tok user w.calls (translate_rest_to_cli host.unescape conf_path) _
            (λ cmd q'. run_edit-Good host s id w _ _ e m)))

  -- Of a path with no id, or of an id whose session is the owner's.
  abbrev pub Of : Str → Str → Str → Type 0
  Of path owner id = ((path ≡ []) × (id ≡ [])) ⊎ (owner ≡ user → Mine d user id)

  Of-Mine :
      (path owner id : Str) → Of path owner id → empty path ≡ false → owner ≡ user → Mine d user id
  Of-Mine path owner id (inl (p, i)) k h =
      absurd (let z : empty [] ≡ false = ap empty (sym p) ∙ k in cc)
  Of-Mine path owner id (inr f) k h = f h

  Of-read :
      (path owner id : Str) {rest : Str}
      → Of path owner id
      → substr_from path 1 ≡ done rest
      → owner ≡ user
      → Mine d user id
  unfolding substr_from?
  Of-read path owner id (inl (p, i)) k h =
      absurd (let z = ap (λ x. substr_from x 1) (sym p) ∙ k in cc)
  Of-read path owner id (inr f) k h = f h

  pub describe-Good :
      (host : ConfHost) (s : Session) (path owner id : Str) (w : World)
      → w.dir ≡ d
      → s.user ≡ user
      → Of path owner id
      → Good d tok user w.calls (describe host s path owner id w)
  unfolding describe
  describe-Good host s path owner id w e u o =
      cases_if (Good d tok user w.calls) (not (str_eq owner s.user))
        (λ h. answer-Good validation_failure s w e)
        (λ h. Good-bind d tok user w.calls (substr_from path 1) _ (λ rest q.
          let mine = Of-read path owner id o q ((str_eq_iff owner s.user).0 (ground arith) ∙ u) in
          Good-bind d tok user w.calls (behind_id path (find (codes "/") rest)) _ (λ sub q'.
            Good-bind d tok user w.calls (host.get_configured_node (without_blank sub) id) _
              (λ node q''. described-Good host s w.calls _ node (
                Grown-logged d tok user w (reads_node (conv_conf_id id) (without_blank sub)) e
                  (id, refl, mine))))))

  pub edit-Good :
      (host : ConfHost) (s : Session) (path owner id : Str) (w : World)
      → w.dir ≡ d
      → s.user ≡ user
      → Of path owner id
      → Good d tok user w.calls (edit host s path owner id w)
  unfolding edit
  edit-Good host s path owner id w e u o =
      cases_if (Good d tok user w.calls) (not (str_eq owner s.user))
        (λ h. answer-Good authorization_failure s w e)
        (λ h.
          cases_if (Good d tok user w.calls) (empty path)
            (λ k. answer-Good validation_failure s w e)
            (λ k. Good-bind d tok user w.calls (substr_from path 1) _ (λ rest q.
              edit_at-Good host s path id w _ e
                (Of-Mine path owner id o k ((str_eq_iff owner s.user).0 (ground arith) ∙ u)))))
