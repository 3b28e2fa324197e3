-- ===== src/Chunker/Message/Wire.antt =====
-- The daemon reads from a message what the server put into it (the CHUNKER_*_FORMAT strings of
-- src/server/common.cc, ChunkerManager::process of src/server/chunker2_manager.cc).
use vyatta_rest.Prelude.{
  ◌+◌, ◌^◌, ◌<◌, ◌≡◌, ◌≢◌, refl, ap, sym, ◌∙◌, true, false, ◌++◌, some, length, take, drop, arith,
  take-length, drop-length, append_assoc, length-append,
}
use vyatta_rest.Text.{Str, codes, find, starts_with, contains}
use vyatta_rest.Text.Find.{Lacks, find-past, contains-none}
use vyatta_rest.Chunker.Message.{
  between, or_empty, message_token, message_statement, message_user, command_message, Query,
  processes, details, next, query_tag, query_message,
}

-- A text that stands between its tags, found where they first stand, is what is read.
between_lem :
    (open_tag close_tag pre body post s : Str)
    → s ≡ pre ++ (open_tag ++ (body ++ post))
    → find open_tag s ≡ some (length pre)
    → find close_tag s ≡ some (length pre + length open_tag + length body)
    → length body < 2 ^ 64
    → between open_tag close_tag s ≡ some body
unfolding between
between_lem open_tag close_tag pre body post s e o c fits =
    rw (o, c)
      (ap some (
        ap (λ k. take k (drop (length pre + length open_tag) s)) (omega arith)
        ∙ ap (take (length body)) (
            ap (drop (length pre + length open_tag)) e
            ∙ ap (λ k. drop k (pre ++ (open_tag ++ (body ++ post))))
                (omega (arith, length-append pre open_tag))
            ∙ ap (drop (length (pre ++ open_tag))) (sym (append_assoc pre open_tag (body ++ post)))
            ∙ drop-length (pre ++ open_tag) (body ++ post))
        ∙ take-length body post))

-- A value that a message can carry.
abbrev pub Plain : Str → Type 0
Plain s = Lacks b'<' s × (length s < 2 ^ 64)

module _ (tok cmd user : Str) (pt : Plain tok) (pc : Plain cmd) (pu : Plain user) where
  pub token-command_message : message_token (command_message tok cmd user) ≡ some tok
  unfolding message_token find starts_with
  token-command_message =
      between_lem (codes "<token>") (codes "</token>") (codes "<vyatta><command>") tok _
        (command_message tok cmd user) refl refl
        (rw (find-past b'<' (codes "/token>") tok _ pt.0) (ap some (omega arith))) pt.1

  pub statement-command_message : message_statement (command_message tok cmd user) ≡ cmd
  unfolding message_statement find starts_with
  statement-command_message = ap or_empty (
      between_lem (codes "<statement>") (codes "</statement>")
        (codes "<vyatta><command><token>" ++ (tok ++ codes "</token>")) cmd
        (codes "</statement><user>" ++ (user ++ codes "</user></command></vyatta>"))
        (command_message tok cmd user) (simp append_assoc)
        (rw (find-past b'<' (codes "statement>") tok _ pt.0)
          (ap some (omega (arith, length-append tok (codes "</token>")))))
        (rw (find-past b'<' (codes "/statement>") tok _ pt.0) (
          rw (find-past b'<' (codes "/statement>") cmd _ pc.0)
            (ap some (omega (arith, length-append tok (codes "</token>"))))))
        pc.1)

  pub user-command_message : message_user (command_message tok cmd user) ≡ user
  unfolding message_user find starts_with
  user-command_message = ap or_empty (
      between_lem (codes "<user>") (codes "</user>")
        (codes "<vyatta><command><token>"
          ++ (tok ++ (codes "</token><statement>" ++ (cmd ++ codes "</statement>"))))
        user (codes "</user></command></vyatta>") (command_message tok cmd user) (simp append_assoc)
        (rw (find-past b'<' (codes "user>") tok _ pt.0) (
          rw (find-past b'<' (codes "user>") cmd _ pc.0)
            (ap some (omega (arith, length-append {0})))))
        (rw (find-past b'<' (codes "/user>") tok _ pt.0) (
          rw (find-past b'<' (codes "/user>") cmd _ pc.0) (
            rw (find-past b'<' (codes "/user>") user _ pu.0)
              (ap some (omega (arith, length-append {0}))))))
        pu.1)

  pub kind-command_message : contains (codes "<command>") (command_message tok cmd user) ≡ true
  unfolding contains find starts_with
  kind-command_message = refl

module _ (tok user : Str) (pt : Plain tok) (pu : Plain user) where
  token_tag :
      (q : Query)
      → find (codes "<token>") (query_message q tok user) ≡ some (length (query_tag q) + 10)
  unfolding find starts_with
  token_tag processes = refl
  token_tag q = refl

  token_end :
      (q : Query)
      → find (codes "</token>") (query_message q tok user)
        ≡ some (length (query_tag q) + 17 + length tok)
  unfolding find starts_with
  token_end processes = rw (find-past b'<' (codes "/token>") tok _ pt.0) (ap some (omega arith))
  token_end q = rw (find-past b'<' (codes "/token>") tok _ pt.0) (ap some (omega arith))

  user_tag :
      (q : Query)
      → find (codes "<user>") (query_message q tok user)
        ≡ some (length (query_tag q) + 25 + length tok)
  unfolding find starts_with
  user_tag processes = rw (find-past b'<' (codes "user>") tok _ pt.0) (ap some (omega arith))
  user_tag q = rw (find-past b'<' (codes "user>") tok _ pt.0) (ap some (omega arith))

  user_end :
      (q : Query)
      → find (codes "</user>") (query_message q tok user)
        ≡ some (length (query_tag q) + 31 + length tok + length user)
  unfolding find starts_with
  user_end processes =
      rw (find-past b'<' (codes "/user>") tok _ pt.0)
        (rw (find-past b'<' (codes "/user>") user _ pu.0) (ap some (omega arith)))
  user_end q =
      rw (find-past b'<' (codes "/user>") tok _ pt.0)
        (rw (find-past b'<' (codes "/user>") user _ pu.0) (ap some (omega arith)))

  pub token-query_message : (q : Query) → message_token (query_message q tok user) ≡ some tok
  unfolding message_token
  token-query_message q =
      between_lem (codes "<token>") (codes "</token>")
        (codes "<vyatta><" ++ (query_tag q ++ codes ">")) tok
        (codes "</token><user>"
          ++ (user ++ (codes "</user></" ++ (query_tag q ++ codes "></vyatta>"))))
        (query_message q tok user) (simp append_assoc)
        (token_tag q ∙ ap some (omega (arith, length-append {0})))
        (token_end q ∙ ap some (omega (arith, length-append {0}))) pt.1

  pub user-query_message : (q : Query) → message_user (query_message q tok user) ≡ user
  unfolding message_user
  user-query_message q = ap or_empty (
      between_lem (codes "<user>") (codes "</user>")
        (codes "<vyatta><" ++ (query_tag q ++ (codes "><token>" ++ (tok ++ codes "</token>")))) user
        (codes "</user></" ++ (query_tag q ++ codes "></vyatta>")) (query_message q tok user)
        (simp append_assoc) (user_tag q ∙ ap some (omega (arith, length-append {0})))
        (user_end q ∙ ap some (omega (arith, length-append {0}))) pu.1)

  pub kind_command : (q : Query) → contains (codes "<command>") (query_message q tok user) ≡ false
  unfolding find starts_with
  kind_command processes = contains-none _ _ (
      rw (find-past b'<' (codes "command>") tok _ pt.0)
        (rw (find-past b'<' (codes "command>") user _ pu.0)))
  kind_command q = contains-none _ _ (
      rw (find-past b'<' (codes "command>") tok _ pt.0)
        (rw (find-past b'<' (codes "command>") user _ pu.0)))

  pub kind_process :
      (q : Query) → q ≢ processes → contains (codes "<process>") (query_message q tok user) ≡ false
  unfolding find starts_with
  kind_process processes ne = absurd (ne refl)
  kind_process q ne = contains-none _ _ (
      rw (find-past b'<' (codes "process>") tok _ pt.0)
        (rw (find-past b'<' (codes "process>") user _ pu.0)))

  pub kind_details :
      (q : Query) → q ≢ details → contains (codes "<details>") (query_message q tok user) ≡ false
  unfolding find starts_with
  kind_details details ne = absurd (ne refl)
  kind_details q ne = contains-none _ _ (
      rw (find-past b'<' (codes "details>") tok _ pt.0)
        (rw (find-past b'<' (codes "details>") user _ pu.0)))

  pub kind_next :
      (q : Query) → q ≢ next → contains (codes "<next>") (query_message q tok user) ≡ false
  unfolding find starts_with
  kind_next next ne = absurd (ne refl)
  kind_next q ne = contains-none _ _ (
      rw (find-past b'<' (codes "next>") tok _ pt.0)
        (rw (find-past b'<' (codes "next>") user _ pu.0)))

  pub kind_self :
      (q : Query)
      → contains (codes "<" ++ (query_tag q ++ codes ">")) (query_message q tok user) ≡ true
  unfolding find starts_with contains
  kind_self processes = refl
  kind_self q = refl
