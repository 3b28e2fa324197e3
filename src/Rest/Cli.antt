-- ===== src/Rest/Cli.antt =====
-- `Rest::translate_rest_to_cli` of src/server/common.cc: the segments of a request path, unescaped
-- and quoted, as one command line. `curl_easy_unescape` is the parameter `unescape`.
pub mod Slashed
use vyatta_rest.Prelude.{
  ℕ, zero, suc, ◌+◌, ◌-◌, Bool, false, ◌&&◌, [], ◌∷◌, ◌++◌, none, some, ◌==◌, ltb, if◌then◌else◌,
  length, take, drop,
}
use vyatta_rest.Text.{Str, codes, find_from, find, starts_with}
use vyatta_rest.Text.Find.{Lacks, find-Lacks}
use vyatta_rest.Outcome.{Outcome, done, no_fuel}
use vyatta_rest.Prelude.{◌≡◌, refl, arith}

-- `t[0] == c && t[t.length() - 1] == c`; `t[0]` of an empty string is the NUL byte
unfoldable pub ends_in : ℕ → Str → Bool
ends_in c [] = false
ends_in c (x ∷ []) = x == c
ends_in c (x ∷ y ∷ s) = ends_in c (y ∷ s)

unfoldable pub enclosed : ℕ → Str → Bool
unfolding ends_in
enclosed c [] = false
enclosed c (x ∷ s) = x == c && ends_in c (x ∷ s)

-- What a segment adds to the command line.
unfoldable pub quoted : Str → Str
unfolding enclosed
quoted t =
    if enclosed b'\'' t
    then codes " " ++ t
    else if enclosed b'"' t
    then codes " '" ++ (take (length t - 2) (drop 1 t) ++ codes "'")
    else codes " '" ++ (t ++ codes "'")

module _ (unescape : Str → Str) (in_cmd : Str) where
  unfoldable pub last_segment : ℕ → ℕ → Str → Str
  unfolding quoted
  last_segment ct old_pos cmd =
      if ltb 0 ct then cmd ++ quoted (unescape (drop (old_pos + 1) in_cmd)) else cmd

  unfoldable pub next_segment : ℕ → ℕ → ℕ → Str → Str
  unfolding quoted
  next_segment ct old_pos cur_pos cmd =
      if ct == 0
      then take cur_pos in_cmd
      else cmd ++ quoted (unescape (take (cur_pos - (old_pos + 1)) (drop (old_pos + 1) in_cmd)))

  unfoldable pub translate_loop : ℕ → ℕ → ℕ → Str → Outcome Str
  unfolding last_segment next_segment
  translate_loop zero ct old_pos cmd = no_fuel
  translate_loop (suc fuel) ct old_pos cmd = elim (find_from (codes "/") in_cmd (old_pos + 1)) [
    | none ↦ done (last_segment ct old_pos cmd)
    | some cur_pos ↦ translate_loop fuel (suc ct) cur_pos (next_segment ct old_pos cur_pos cmd)
  ]

  unfoldable pub translate_rest_to_cli : Outcome Str
  unfolding translate_loop
  translate_rest_to_cli = translate_loop (suc (length in_cmd)) 0 0 []

translate_example :
    translate_rest_to_cli (λ s. s) (codes "show/version/\"a b\"/x")
    ≡ done (codes "show 'version' 'a b' 'x'")
unfolding translate_rest_to_cli find_from find starts_with
translate_example = refl

find_from-Lacks : (x : ℕ) (s : Str) → Lacks b'/' s → find_from (codes "/") (x ∷ s) 1 ≡ none
unfolding find_from
find_from-Lacks x s h = ground (arith, find-Lacks b'/' [] s h)

-- A path of one segment, with no '/', translates to the empty command line.
pub translate_single :
    (unescape : Str → Str) (s : Str) → Lacks b'/' s → translate_rest_to_cli unescape s ≡ done []
unfolding translate_rest_to_cli
translate_single unescape [] h = unfold find_from in refl
translate_single unescape (x ∷ s) h = rw (translate_loop, find_from-Lacks x s h.1)
