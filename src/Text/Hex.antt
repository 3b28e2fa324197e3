-- ===== src/Text/Hex.antt =====
-- Hexadecimal output (`%.8lX`) and input (`strtoull` of "0x" and what follows, with base 0).
use vyatta_rest.Prelude.{
  ℕ, zero, suc, ◌+◌, ◌-◌, ◌*◌, ◌/◌, ◌%◌, ◌^◌, ◌<◌, ◌≡◌, ap, ◌∙◌, ◌⊎◌, true, ◌&&◌, [], ◌∷◌, Option,
  none, some, arith, leb, ltb, if◌then◌else◌, length, All,
}
use vyatta_rest.Text.{Str}

abbrev pub hex_digit : ℕ → ℕ
hex_digit d = if ltb d 10 then b'0' + d else b'A' + (d - 10)

-- `k` digits of `n` in front of `rest`
unfoldable pub hex_onto : ℕ → ℕ → Str → Str
hex_onto zero n rest = rest
hex_onto (suc k) n rest = hex_onto k (n / 16) (hex_digit (n % 16) ∷ rest)

abbrev pub nibble : ℕ → Option ℕ
nibble c =
    if leb b'0' c && leb c b'9'
    then some (c - b'0')
    else if leb b'A' c && leb c b'F'
    then some (c - b'A' + 10)
    else if leb b'a' c && leb c b'f'
    then some (c - b'a' + 10)
    else none

-- The value of the digits up to the first byte that is none.
unfoldable pub hex_value : ℕ → Str → ℕ
hex_value acc [] = acc
hex_value acc (c ∷ s) = elim (nibble c) [ none ↦ acc | some v ↦ hex_value (acc * 16 + v) s ]

-- `strtoull(("0x" + s).c_str(), NULL, 0)`: ULLONG_MAX where the digits do not fit
unfoldable pub strtoull_hex : Str → ℕ
unfolding hex_value
strtoull_hex s = let n = hex_value 0 s in if leb (2 ^ 64) n then 2 ^ 64 - 1 else n

-- `acc` times 16 to the power `k`
abbrev pub shifted : ℕ → ℕ → ℕ
shifted zero acc = acc
shifted (suc k) acc = shifted k acc * 16

nibble-hex_digit : (d : ℕ) → d < 16 → nibble (hex_digit d) ≡ some d
nibble-hex_digit d h = ground arith

hex_value-digit :
    (acc d : ℕ) (s : Str) → d < 16 → hex_value acc (hex_digit d ∷ s) ≡ hex_value (acc * 16 + d) s
unfolding hex_value
hex_value-digit acc d s h = rw (hex_value, nibble-hex_digit d h)

-- The digits that were written are read.
pub hex_value-onto :
    (k acc n : ℕ) (rest : Str)
    → n < shifted k 1
    → hex_value acc (hex_onto k n rest) ≡ hex_value (shifted k acc + n) rest
unfolding hex_onto
hex_value-onto zero acc n rest h = ground arith
hex_value-onto (suc k) acc n rest h =
    hex_value-onto k acc (n / 16) (hex_digit (n % 16) ∷ rest) (omega arith)
    ∙ hex_value-digit (shifted k acc + n / 16) (n % 16) rest (omega arith)
    ∙ ap (λ a. hex_value a rest) (omega arith)

pub length-hex_onto : (k n : ℕ) (rest : Str) → length (hex_onto k n rest) ≡ k + length rest
unfolding hex_onto
length-hex_onto zero n rest = omega arith
length-hex_onto (suc k) n rest =
    length-hex_onto k (n / 16) (hex_digit (n % 16) ∷ rest) ∙ omega arith

-- A digit as `%X` writes it.
abbrev pub IsHexDigit : ℕ → Type 0
IsHexDigit c = (leb b'0' c && leb c b'9' ≡ true) ⊎ (leb b'A' c && leb c b'F' ≡ true)

pub hex_onto-IsHexDigit :
    (k n : ℕ) (rest : Str) → All IsHexDigit rest → All IsHexDigit (hex_onto k n rest)
unfolding hex_onto
hex_onto-IsHexDigit zero n rest h = h
hex_onto-IsHexDigit (suc k) n rest h =
    hex_onto-IsHexDigit k (n / 16) (hex_digit (n % 16) ∷ rest) (ground arith, h)
