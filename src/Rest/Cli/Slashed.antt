-- ===== src/Rest/Cli/Slashed.antt =====
-- What `Rest::translate_rest_to_cli` of src/server/common.cc makes of a path of several segments.
use vyatta_rest.Prelude.{
  ℕ, zero, suc, ◌+◌, ◌-◌, ◌<◌, ◌≡◌, ◌≢◌, refl, ap, sym, ◌∙◌, List, [], ◌∷◌, ◌++◌, some, none, arith,
  length, take, drop, All, length-append, take-length, drop-length, append_assoc, append-nil,
}
use vyatta_rest.Text.{Str, codes, find, find_from, shift}
use vyatta_rest.Text.Find.{Lacks, find-skip, find-Lacks, find_from-past}
use vyatta_rest.Outcome.{done}
use vyatta_rest.Rest.Cli.{quoted, last_segment, next_segment, translate_loop, translate_rest_to_cli}

-- The segments behind the first.
abbrev pub slashed : List Str → Str
slashed [] = []
slashed (s ∷ ss) = b'/' ∷ (s ++ slashed ss)

-- What they add to the command line.
abbrev pub quoted_segments : (Str → Str) → List Str → Str
quoted_segments unescape [] = []
quoted_segments unescape (s ∷ ss) = quoted (unescape s) ++ quoted_segments unescape ss

length-slashed : (ss : List Str) → length ss < suc (length (slashed ss))
length-slashed [] = omega arith
length-slashed (s ∷ ss) = omega (arith, length-append s (slashed ss), length-slashed ss)

module _ (unescape : Str → Str) where
  behind_slash : (pre s : Str) → drop (length pre + 1) (pre ++ b'/' ∷ s) ≡ s
  behind_slash pre s =
      ap (λ n. drop n (pre ++ b'/' ∷ s)) (omega (arith, length-append pre (b'/' ∷ [])))
      ∙ ap (drop (length (pre ++ b'/' ∷ []))) (sym (append_assoc pre (b'/' ∷ []) s))
      ∙ drop-length (pre ++ b'/' ∷ []) s

  last_segment_lem :
      (in_cmd : Str) (ct old_pos : ℕ) (cmd : Str)
      → last_segment unescape in_cmd (suc ct) old_pos cmd
        ≡ cmd ++ quoted (unescape (drop (old_pos + 1) in_cmd))
  unfolding last_segment
  last_segment_lem in_cmd ct old_pos cmd = ground arith

  next_segment_lem :
      (in_cmd : Str) (ct old_pos cur_pos : ℕ) (cmd : Str)
      → next_segment unescape in_cmd (suc ct) old_pos cur_pos cmd
        ≡ cmd ++ quoted (unescape (take (cur_pos - (old_pos + 1)) (drop (old_pos + 1) in_cmd)))
  unfolding next_segment
  next_segment_lem in_cmd ct old_pos cur_pos cmd = ground arith

  find_behind_slash :
      (pre s : Str)
      → find_from (codes "/") (pre ++ b'/' ∷ s) (length pre + 1)
        ≡ shift (length pre + 1) (find (codes "/") s)
  find_behind_slash pre s =
      let n : length pre + 1 ≡ length (pre ++ b'/' ∷ []) =
        omega (arith, length-append pre (b'/' ∷ [])) in
      rw (n, sym (append_assoc pre (b'/' ∷ []) s)) (find_from-past (codes "/") (pre ++ b'/' ∷ []) s)

  translate_segments :
      (ss : List Str) (s pre : Str) (fuel ct : ℕ) (cmd : Str)
      → length ss < fuel
      → All (Lacks b'/') (s ∷ ss)
      → translate_loop unescape (pre ++ b'/' ∷ (s ++ slashed ss)) fuel (suc ct) (length pre) cmd
        ≡ done (cmd ++ quoted_segments unescape (s ∷ ss))
  unfolding translate_loop last_segment next_segment
  translate_segments ss s pre zero ct cmd h l = absurd (omega arith)
  translate_segments [] s pre (suc fuel) ct cmd h (l, ls) =
      let n : find_from (codes "/") (pre ++ b'/' ∷ (s ++ [])) (length pre + 1) ≡ none =
        find_behind_slash pre (s ++ [])
        ∙ ap (λ x. shift (length pre + 1) (find (codes "/") x)) (append-nil s)
        ∙ ap (shift (length pre + 1)) (find-Lacks b'/' [] s l) in
      rw (
        translate_loop,
        n,
        last_segment_lem (pre ++ b'/' ∷ (s ++ [])) ct (length pre) cmd,
        behind_slash pre (s ++ []),
        append-nil s,
        append-nil (quoted (unescape s)),
      )
  translate_segments (t ∷ ts) s pre (suc fuel) ct cmd h (l, ls) =
      let behind = s ++ slashed (t ∷ ts) in
      let n : find_from (codes "/") (pre ++ b'/' ∷ behind) (length pre + 1)
          ≡ some (length pre + 1 + length s) =
        find_behind_slash pre behind
        ∙ ap (shift (length pre + 1)) (find-skip b'/' [] s (t ++ slashed ts) l) in
      let k : length pre + 1 + length s - (length pre + 1) ≡ length s = omega arith in
      let c : pre ++ b'/' ∷ behind ≡ (pre ++ b'/' ∷ s) ++ slashed (t ∷ ts) =
        sym (append_assoc pre (b'/' ∷ s) (slashed (t ∷ ts))) in
      let i : length pre + 1 + length s ≡ length (pre ++ b'/' ∷ s) =
        omega (arith, length-append pre (b'/' ∷ s)) in
      rw
        (
          translate_loop,
          n,
          next_segment_lem (pre ++ b'/' ∷ behind) ct (length pre) (length pre + 1 + length s) cmd,
          k,
          behind_slash pre behind,
          take-length s (slashed (t ∷ ts)),
        )
        (ap
            (λ x.
              translate_loop unescape x fuel (suc (suc ct)) (length pre + 1 + length s)
                (cmd ++ quoted (unescape s)))
            c
          ∙ ap
              (λ j.
                translate_loop unescape ((pre ++ b'/' ∷ s) ++ slashed (t ∷ ts)) fuel (suc (suc ct))
                  j (cmd ++ quoted (unescape s)))
              i
          ∙ translate_segments ts t (pre ++ b'/' ∷ s) fuel (suc ct) (cmd ++ quoted (unescape s))
              (omega arith) ls
          ∙ ap done (append_assoc cmd (quoted (unescape s)) (quoted_segments unescape (t ∷ ts))))

  -- A path of at least two segments, of which the first is not empty: the first stands as it is, and
  -- each other is unescaped and quoted.
  pub translate-slashed :
      (w s : Str) (ss : List Str)
      → w ≢ []
      → Lacks b'/' w
      → All (Lacks b'/') (s ∷ ss)
      → translate_rest_to_cli unescape (w ++ slashed (s ∷ ss))
        ≡ done (w ++ quoted_segments unescape (s ∷ ss))
  unfolding translate_rest_to_cli translate_loop next_segment
  translate-slashed [] s ss ne l ls = absurd (ne refl)
  translate-slashed (x ∷ w) s ss ne l ls =
      let path = (x ∷ w) ++ slashed (s ∷ ss) in
      let n : find_from (codes "/") path 1 ≡ some (length (x ∷ w)) =
        find_from-past (codes "/") (x ∷ []) (w ++ slashed (s ∷ ss))
        ∙ ap (shift 1) (find-skip b'/' [] w (s ++ slashed ss) l.1)
        ∙ ap some (omega arith) in
      rw (translate_rest_to_cli, translate_loop, n)
        (ap (λ c. translate_loop unescape path (length path) 1 (length (x ∷ w)) c)
            (take-length (x ∷ w) (slashed (s ∷ ss)))
          ∙ translate_segments ss s (x ∷ w) (length path) 0 (x ∷ w)
              (omega (
                arith,
                length-append w (slashed (s ∷ ss)),
                length-append s (slashed ss),
                length-slashed ss,
              ))
              ls)
