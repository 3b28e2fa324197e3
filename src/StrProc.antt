-- ===== src/StrProc.antt =====
-- src/server/rl_str_proc.hh and rl_str_proc.cc: class StrProc, which splits a text at a token. The
-- object is its collection of pieces.
pub mod Marks
pub mod Newline
pub mod Pieces
pub mod Fields
use vyatta_rest.Prelude.{
  ℕ, zero, suc, ◌+◌, ◌-◌, ◌<◌, Bool, true, false, ◌&&◌, List, [], ◌∷◌, ◌++◌, Option, none, some,
  ◌==◌, ltb, leb, if◌then◌else◌, length, take, drop, get_elem?, ◌≡◌, refl,
}
use vyatta_rest.Text.{Str, codes, find, find_from, starts_with, rfind, replace_at}
use vyatta_rest.Outcome.{Outcome, done, thrown, no_fuel, ◌>>=◌}
use vyatta_rest.Rest.{replace_loop}

-- `pos == tmp.rfind("\n")` for the position that `find` returned
same_position : ℕ → Option ℕ → Bool
same_position n none = false
same_position n (some m) = n == m

-- "remove the cr if there is only one"
remove_newline_at : Str → Option ℕ → Str
remove_newline_at tmp none = tmp
remove_newline_at tmp (some pos) =
    if same_position pos (rfind b'\n' tmp) then replace_at tmp pos 1 [] else tmp

unfoldable pub remove_newline : Str → Str
unfolding remove_newline_at same_position
remove_newline tmp = remove_newline_at tmp (find (codes "\n") tmp)

-- `tmp.find_first_not_of("~")`
unfoldable pub first_not_tilde : Str → Option ℕ
first_not_tilde [] = none
first_not_tilde (c ∷ s) =
    if c == b'~' then elim (first_not_tilde s) [ none ↦ none | some n ↦ some (suc n) ] else some 0

-- The body of the last loop behind `find_first_not_of`, then behind `find_first_of("~")`; `again`
-- is the next round. A piece with no '~' behind it ends the loop.
unfoldable pub after_piece : (Str → Outcome (List Str)) → Str → Option ℕ → Outcome (List Str)
after_piece again tmp none = done (tmp ∷ [])
after_piece again tmp (some end) = do rest ← again (drop (suc end) tmp); done (take end tmp ∷ rest)

unfoldable pub split_at : (Str → Outcome (List Str)) → Str → Option ℕ → Outcome (List Str)
split_at again tmp none = done []
split_at again tmp (some start) =
    after_piece again (drop start tmp) (find (codes "~") (drop start tmp))

-- The last loop: pieces between the '~' marks, empty ones skipped.
unfoldable pub split_loop : ℕ → Str → Outcome (List Str)
unfolding after_piece split_at
split_loop zero tmp = no_fuel
split_loop (suc fuel) tmp = split_at (split_loop fuel) tmp (first_not_tilde tmp)

-- The constructor.
unfoldable pub str_proc : Str → Str → Outcome (List Str)
str_proc in_str token = do
  tabless ← replace_loop (suc (length in_str)) (codes "\t") (codes "    ") 4 in_str 0
  let joined = remove_newline tabless
  marked ← replace_loop (suc (length joined)) token (codes "~") 0 joined 0
  split_loop (suc (length marked)) marked

-- get(i)
abbrev pub get : List Str → ℕ → Str
get coll i = elim (get_elem? coll i) [ none ↦ [] | some s ↦ s ]

-- the loop of get(start, end), which takes `n` pieces
unfoldable pub joined_pieces : List Str → ℕ → Str
joined_pieces coll zero = []
joined_pieces [] (suc n) = []
joined_pieces (s ∷ coll) (suc n) = s ++ (codes " " ++ joined_pieces coll n)

-- get(start, end): when the loop adds nothing, `tmp.length() - 1` wraps and the substring is the
-- whole, empty, `tmp`.
unfoldable pub get_range : List Str → ℕ → ℕ → Str
unfolding joined_pieces
get_range coll start end =
    if leb (length coll) start
    then []
    else let tmp = joined_pieces (drop start coll) (end - start) in take (length tmp - 1) tmp

str_proc_example :
    str_proc (codes "abc,joe,,17\n") (codes ",")
    ≡ done (codes "abc" ∷ codes "joe" ∷ codes "17" ∷ [])
unfolding str_proc replace_loop remove_newline first_not_tilde split_loop find find_from starts_with
    rfind
str_proc_example = refl

-- A '~' in the text splits too, whatever the token.
str_proc_tilde :
    str_proc (codes "a~b,c") (codes ",") ≡ done (codes "a" ∷ codes "b" ∷ codes "c" ∷ [])
unfolding str_proc replace_loop remove_newline first_not_tilde split_loop find find_from starts_with
    rfind
str_proc_tilde = refl
