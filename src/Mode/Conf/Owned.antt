-- ===== src/Mode/Conf/Owned.antt =====
-- What a request to the configuration mode of src/server/confmode.cc may touch: the sessions whose
-- modify file names its user, and the session that it creates.
use vyatta_rest.Prelude.{
  ◌≡◌, ◌⊎◌, inl, inr, refl, ap, sym, subst, ◌∙◌, Bool, true, false, not, List, [], ◌∷◌, ◌++◌, none,
  All, append-nil, append_assoc, if◌then◌else◌, Bool-cases, either_if,
}
use vyatta_rest.Text.{Str, str_eq, empty}
use vyatta_rest.Text.Find.{str_eq_iff}
use vyatta_rest.Outcome.{Outcome, done, thrown, undefined, no_fuel, ◌>>=◌}
use vyatta_rest.Rest.Modify.{TmpDir, unlink_file}
use vyatta_rest.Rest.Modify.Found.{Mine}
use vyatta_rest.Http.{Session}
use vyatta_rest.Mode.Conf.{
  ConfHost, World, Call, set_up, asks_changed, discards, tears_down, commits, saves, runs,
  reads_node, Reply, logged, conv_conf_id, discard_session, discard_open,
}

module _ (d : TmpDir) (tok user : Str) where
  -- A session whose modify file names the user, or nobody.
  abbrev pub OnMine : Str → Type 0
  OnMine sid = (id : Str) × (sid ≡ conv_conf_id id) × Mine d user id

  -- A call on such a session, or the set-up of the session of the new token.
  abbrev pub Allowed : Call → Type 0
  Allowed (set_up sid) = sid ≡ conv_conf_id tok
  Allowed (asks_changed sid) = OnMine sid
  Allowed (discards sid) = OnMine sid
  Allowed (tears_down sid) = OnMine sid
  Allowed (commits sid) = OnMine sid
  Allowed (saves sid) = OnMine sid
  Allowed (runs sid command) = OnMine sid
  Allowed (reads_node sid path) = OnMine sid

  -- The modify file of an id is as it was, unless it is the user's or the new session's.
  abbrev pub KeepsOthers : TmpDir → Type 0
  KeepsOthers d' = (j : Str) → (d'.content j ≡ d.content j) ⊎ ((j ≡ tok) ⊎ Mine d user j)

  -- Behind the calls `cs`, only such calls, and only such files changed.
  abbrev pub Grown : List Call → World → Type 0
  Grown cs w = (new : List Call) × (w.calls ≡ cs ++ new) × All Allowed new × KeepsOthers w.dir

  abbrev pub Good : List Call → Reply → Type 0
  Good cs r = (s' : Session) (w' : World) → r ≡ done (s', w') → Grown cs w'

  abbrev Start : World → Type 0
  Start w = w.dir ≡ d

  pub stays : (cs : List Call) (w : World) → w.dir ≡ d → w.calls ≡ cs → Grown cs w
  stays cs w e q = ([], q ∙ sym (append-nil cs), tt, λ j. inl (ap (λ x. x.content j) e))

  pub Good-done : (cs : List Call) (s : Session) (w : World) → Grown cs w → Good cs (done (s, w))
  Good-done cs s w g s' w' e = subst (λ x. Grown cs x) (let q : w ≡ w' = cc in q) g

  pub Good-bind :
      {A : Type 0} (cs : List Call) (m : Outcome A) (f : A → Reply)
      → ((a : A) → m ≡ done a → Good cs (f a))
      → Good cs (m >>= f)
  Good-bind cs (done a) f g s' w' e = g a refl s' w' e
  Good-bind cs thrown f g s' w' e = absurd cc
  Good-bind cs undefined f g s' w' e = absurd cc
  Good-bind cs no_fuel f g s' w' e = absurd cc

  -- A call that is allowed.
  pub Grown-logged :
      (w : World) (call : Call) → w.dir ≡ d → Allowed call → Grown w.calls (logged call w)
  unfolding logged
  Grown-logged w call e a = (call ∷ [], refl, (a, tt), λ j. inl (ap (λ x. x.content j) e))

  unlink_file-KeepsOthers :
      (id : Str) (d0 : TmpDir) → d0 ≡ d → Mine d user id → KeepsOthers (unlink_file id d0)
  unfolding unlink_file
  unlink_file-KeepsOthers id d0 e m j = elim (Bool-cases (str_eq id j)) [
    | inl h ↦ inr (inr (subst (λ i. Mine d user i) ((str_eq_iff id j).0 h) m))
    | inr h ↦ inl (ap (λ b. if b then none else d0.content j) h ∙ ap (λ x. x.content j) e)
  ]

  discard_open-Grown :
      (id : Str) (exit_session : Bool) (w : World)
      → w.dir ≡ d
      → Mine d user id
      → Grown w.calls (discard_open id exit_session w)
  unfolding discard_open logged
  discard_open-Grown id false w e m = Grown-logged w (discards (conv_conf_id id)) e (id, refl, m)
  discard_open-Grown id true w e m = (
    discards (conv_conf_id id) ∷ tears_down (conv_conf_id id) ∷ [],
    append_assoc w.calls (discards (conv_conf_id id) ∷ []) (tears_down (conv_conf_id id) ∷ []),
    ((id, refl, m), ((id, refl, m), tt)),
    unlink_file-KeepsOthers id w.dir e m,
  )

  pub discard_session-Grown :
      (host : ConfHost) (id : Str) (exit_session : Bool) (w : World)
      → w.dir ≡ d
      → (id ≡ []) ⊎ Mine d user id
      → Grown w.calls (discard_session host id exit_session w)
  unfolding discard_session
  discard_session-Grown host id exit_session w e (inl z) =
      subst (λ i. Grown w.calls (discard_session host i exit_session w)) (sym z)
        (stays w.calls w e refl)
  discard_session-Grown host id exit_session w e (inr m) =
      let same = stays w.calls w e refl in
      either_if (Grown w.calls) (empty id) same (
        either_if (Grown w.calls) (not (host.connects (conv_conf_id id))) same
          (discard_open-Grown id exit_session w e m))
