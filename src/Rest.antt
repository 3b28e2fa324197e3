-- ===== src/Rest.antt =====
-- src/server/common.hh and common.cc: the constants, the key and node types, and the text helpers
-- of class `Rest`.
pub mod Keys
pub mod Replace
pub mod Cli
pub mod Unique
pub mod Modify
pub mod Token
pub mod Execute
use vyatta_rest.Prelude.{
  ℕ, zero, suc, ◌+◌, ◌-◌, Bool, true, false, not, ◌&&◌, ◌||◌, List, [], ◌∷◌, ◌++◌, Option, none,
  some, ◌==◌, leb, if◌then◌else◌, length, take, drop,
}
use vyatta_rest.Text.{Str, codes, find_from, replace_at, find, substr?}
use vyatta_rest.Outcome.{Outcome, done, thrown, no_fuel, substr, ◌>>=◌}

-- `while ((j = answer.find(victim, j + offset)) != npos) { …; answer.replace(j, …) }`, where
-- `pos` is `j + offset` and `jump` is what is added to the position of a replacement. StrProc has
-- two loops of the same form.
unfoldable pub replace_loop : ℕ → Str → Str → ℕ → Str → ℕ → Outcome Str
replace_loop zero victim replacement jump answer pos = no_fuel
replace_loop (suc fuel) victim replacement jump answer pos = elim (find_from victim answer pos) [
  | none ↦ done answer
  | some j ↦
      replace_loop fuel victim replacement jump (replace_at answer j (length victim) replacement)
        (j + jump)
]

unfoldable pub mass_replace : Str → Str → Str → Outcome Str
mass_replace source victim replacement =
    replace_loop (suc (length source)) victim replacement (length replacement) source 0

abbrev is_blank : ℕ → Bool
is_blank c = c == b' ' || c == b'\t'

-- `find_first_not_of(" \t")` and `find_last_not_of(" \t")`
first_not_blank : Str → Option ℕ
first_not_blank [] = none
first_not_blank (c ∷ s) =
    if is_blank c then elim (first_not_blank s) [ none ↦ none | some n ↦ some (suc n) ] else some 0

last_not_blank : Str → Option ℕ
last_not_blank [] = none
last_not_blank (c ∷ s) = elim (last_not_blank s) [
  | some n ↦ some (suc n)
  | none ↦ if is_blank c then none else some 0
]

-- `str.substr(startpos, endpos - startpos + 1)`; the positions are in range by construction
trim_between : Str → Option ℕ → Option ℕ → Str
trim_between str none endpos = []
trim_between str (some startpos) none = []
trim_between str (some startpos) (some endpos) = take (endpos - startpos + 1) (drop startpos str)

unfoldable pub trim : Str → Str
unfolding first_not_blank last_not_blank trim_between
trim src = trim_between src (first_not_blank src) (last_not_blank src)
