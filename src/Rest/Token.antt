-- ===== src/Rest/Token.antt =====
-- `Rest::generate_token` of src/server/common.cc: a token of 16 hexadecimal digits, from eight
-- bytes of /dev/urandom.
pub mod Digits
use vyatta_rest.Prelude.{
  ℕ, zero, suc, ◌+◌, ◌-◌, ◌*◌, ◌/◌, ◌%◌, Bool, true, false, List, [], ◌∷◌, ◌++◌, Option, none, some,
  ◌==◌, ltb, if◌then◌else◌,
}
use vyatta_rest.Text.{Str}
use vyatta_rest.Text.Hex.{hex_onto}
use vyatta_rest.Outcome.{Outcome, done, no_fuel}

-- What one opening of /dev/urandom gives: `none` where fopen fails, else what fgetc returns, in
-- order, `none` for EOF.
abbrev pub Opening : Type 0
Opening = Option (ℕ → Option ℕ)

-- A byte as the code reads it: `*ptr == EOF` also holds for the byte 255, whose signed char is -1.
unfoldable pub byte_at : (ℕ → Option ℕ) → ℕ → Option ℕ
byte_at source i = elim (source i) [
  | none ↦ none
  | some b ↦ if b % 256 == 255 then none else some (b % 256)
]

-- The bytes from `i` on, least first; `none` when one of them counts as EOF.
unfoldable pub word_at : (ℕ → Option ℕ) → ℕ → ℕ → Option ℕ
unfolding byte_at
word_at source i zero = some 0
word_at source i (suc k) =
    let rest = word_at source (suc i) k in
    elim (byte_at source i) [
      | none ↦ none
      | some b ↦ elim rest [ none ↦ none | some v ↦ some (b + 256 * v) ]
    ]

-- The token of one opening; `none` is the `continue` behind a byte that counts as EOF.
unfoldable pub token_of : (ℕ → Option ℕ) → Option Str
unfolding word_at hex_onto
token_of source = elim (word_at source 0 4) [
  | none ↦ none
  | some id1 ↦ elim (word_at source 4 4) [
    | none ↦ none
    | some id2 ↦ some (hex_onto 8 id1 (hex_onto 8 id2 []))
  ]
]

-- The loop. `ct` goes down only where fopen fails; a byte that counts as EOF is tried again
-- without counting. `openings` is what the next opening gives.
unfoldable pub token_loop : ℕ → (ℕ → Opening) → ℕ → ℕ → Outcome Str
unfolding token_of
token_loop zero openings i ct = no_fuel
token_loop (suc fuel) openings i zero = done []
token_loop (suc fuel) openings i (suc ct) =
    let failed = token_loop fuel openings (suc i) ct in
    let again = token_loop fuel openings (suc i) (suc ct) in
    elim (openings i) [
      | none ↦ failed
      | some source ↦ elim (token_of source) [ none ↦ again | some t ↦ done t ]
    ]

-- generate_token(), with fuel for the openings that it makes
unfoldable pub generate_token : ℕ → (ℕ → Opening) → Outcome Str
unfolding token_loop
generate_token fuel openings = token_loop fuel openings 0 5
