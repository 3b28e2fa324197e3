-- ===== src/Text/Decimal.antt =====
-- Decimal output (`%zd`, `%lu`, `operator<<`) and input (`strtoul` with base 10), over the digits.
use vyatta_rest.Prelude.{
  ℕ, zero, suc, ◌+◌, ◌-◌, ◌*◌, ◌/◌, ◌%◌, ◌<◌, ◌≡◌, [], ◌∷◌, arith, Bool, ◌&&◌, ◌^◌, leb, ltb,
  if◌then◌else◌, Bool-cases, inl, inr, ◌∙◌, ap, sym, true, false, ◌≢◌, ◌==◌, ◌||◌,
}
use vyatta_rest.Text.{Str}
use vyatta_rest.Text.Find.{Lacks}

-- The digits of `n`, in front of `rest`; one round for each digit, and `n` rounds are enough.
digits_onto : ℕ → ℕ → Str → Str
digits_onto zero n rest = rest
digits_onto (suc fuel) n rest =
    let rest' = (b'0' + n % 10) ∷ rest in
    let more = digits_onto fuel (n / 10) rest' in if ltb n 10 then rest' else more

unfoldable pub decimal : ℕ → Str
unfolding digits_onto
decimal n = digits_onto (suc n) n []

-- `sprintf(buf, "%ld", n)` of an unsigned long
unfoldable pub signed_decimal : ℕ → Str
signed_decimal n = if leb (2 ^ 63) n then b'-' ∷ decimal (2 ^ 64 - n) else decimal n

abbrev pub is_digit : ℕ → Bool
is_digit c = leb b'0' c && leb c b'9'

digits_value : ℕ → Str → ℕ
digits_value acc [] = acc
digits_value acc (c ∷ s) = if is_digit c then digits_value (acc * 10 + (c - b'0')) s else acc

-- isspace: blank, and \t \n \v \f \r
abbrev is_space : ℕ → Bool
is_space c = c == b' ' || leb 9 c && leb c 13

skip_space : Str → Str
skip_space [] = []
skip_space (c ∷ s) = if is_space c then skip_space s else c ∷ s

-- The value of the digits, ULONG_MAX if it does not fit, negated modulo 2^64 behind a '-'.
abbrev clamped : ℕ → ℕ
clamped n = if leb (2 ^ 64) n then 2 ^ 64 - 1 else n

signed_value : Str → ℕ
signed_value [] = 0
signed_value (c ∷ s) =
    if c == b'-'
    then (let n = digits_value 0 s in if leb (2 ^ 64) n then 2 ^ 64 - 1 else (2 ^ 64 - n) % 2 ^ 64)
    else if c == b'+'
    then clamped (digits_value 0 s)
    else clamped (digits_value 0 (c ∷ s))

-- `strtoul(s, NULL, 10)`
unfoldable pub strtoul : Str → ℕ
unfolding digits_value skip_space signed_value
strtoul s = signed_value (skip_space s)

digits_value-onto :
    (fuel n : ℕ) (rest : Str)
    → n < fuel
    → digits_value 0 (digits_onto fuel n rest) ≡ digits_value n rest
unfolding digits_onto digits_value
digits_value-onto zero n rest h = absurd (omega arith)
digits_value-onto (suc fuel) n rest h = elim (Bool-cases (ltb n 10)) [
  | inl e ↦ rw e (ground arith)
  | inr e ↦
      rw e (digits_value-onto fuel (n / 10) ((b'0' + n % 10) ∷ rest) (ground arith) ∙ ground arith)
]

-- The digits begin with a digit.
digits_head :
    (fuel n : ℕ) (rest : Str)
    → (d : ℕ) × (s : Str) × (digits_onto (suc fuel) n rest ≡ d ∷ s) × (is_digit d ≡ true)
unfolding digits_onto
digits_head zero n rest = elim (Bool-cases (ltb n 10)) [
  | inl e ↦ (b'0' + n % 10, rest, rw e, ground arith)
  | inr e ↦ (b'0' + n % 10, rest, rw e, ground arith)
]
digits_head (suc fuel) n rest = elim (Bool-cases (ltb n 10)) [
  | inl e ↦ (b'0' + n % 10, rest, rw e, ground arith)
  | inr e ↦
      let (d, s, q, h) = digits_head fuel (n / 10) ((b'0' + n % 10) ∷ rest) in (d, s, rw e q, h)
]

strtoul_digit :
    (d : ℕ) (s : Str) → is_digit d ≡ true → strtoul (d ∷ s) ≡ clamped (digits_value 0 (d ∷ s))
unfolding strtoul
strtoul_digit d s h = ground arith

-- What `%lu` prints, `strtoul` reads.
pub strtoul-decimal : (n : ℕ) → n < 2 ^ 64 → strtoul (decimal n) ≡ n
unfolding decimal
strtoul-decimal n h =
    let (d, s, q, dig) = digits_head n n [] in
    ap strtoul q
    ∙ strtoul_digit d s dig
    ∙ ap (λ z. clamped (digits_value 0 z)) (sym q)
    ∙ ap clamped (digits_value-onto (suc n) n [] (omega arith))
    ∙ (unfold digits_value in ground arith)

digits_onto-Lacks :
    (c fuel n : ℕ) (rest : Str)
    → is_digit c ≡ false
    → Lacks c rest
    → Lacks c (digits_onto fuel n rest)
unfolding digits_onto
digits_onto-Lacks c zero n rest d h = h
digits_onto-Lacks c (suc fuel) n rest d h = elim (Bool-cases (ltb n 10)) [
  | inl e ↦ rw e (ground arith, h)
  | inr e ↦ rw e (digits_onto-Lacks c fuel (n / 10) ((b'0' + n % 10) ∷ rest) d (ground arith, h))
]

-- The digits hold no byte but digits, and there is one.
pub decimal-Lacks : (c n : ℕ) → is_digit c ≡ false → Lacks c (decimal n)
unfolding decimal
decimal-Lacks c n d = digits_onto-Lacks c (suc n) n [] d tt

pub decimal-ne-nil : (n : ℕ) → decimal n ≢ []
unfolding decimal
decimal-ne-nil n e = let (d, s, q, dig) = digits_head n n [] in cc
