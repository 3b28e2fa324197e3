-- ===== src/Rest/Token/Digits.antt =====
-- The token that `Rest::generate_token` of src/server/common.cc makes: its length, its digits and
-- its value.
use vyatta_rest.Prelude.{
  ℕ, zero, suc, ◌+◌, ◌*◌, ◌^◌, ◌<◌, ◌≡◌, refl, ap, subst, ◌∙◌, [], Option, none, some, arith,
  length, All,
}
use vyatta_rest.Text.{Str}
use vyatta_rest.Text.Hex.{
  hex_onto, hex_value, strtoull_hex, hex_value-onto, length-hex_onto, IsHexDigit,
  hex_onto-IsHexDigit,
}
use vyatta_rest.Outcome.{done, no_fuel}
use vyatta_rest.Rest.Token.{Opening, byte_at, word_at, token_of, token_loop, generate_token}

-- A text of 16 digits whose value is `n`.
abbrev pub IsToken : ℕ → Str → Type 0
IsToken n t = (length t ≡ 16) × All IsHexDigit t × (strtoull_hex t ≡ n)

-- The bytes from `i` on as a number, least first.
abbrev pub little_endian : (ℕ → ℕ) → ℕ → ℕ
little_endian b i = b i + 256 * (b (suc i) + 256 * (b (suc (suc i)) + 256 * b (suc (suc (suc i)))))

abbrev pub token_text : ℕ → ℕ → Str
token_text id1 id2 = hex_onto 8 id1 (hex_onto 8 id2 [])

token_text-IsToken :
    (id1 id2 : ℕ) → id1 < 2 ^ 32 → id2 < 2 ^ 32 → IsToken (id1 * 2 ^ 32 + id2) (token_text id1 id2)
unfolding strtoull_hex
token_text-IsToken id1 id2 h k =
    let value : hex_value 0 (token_text id1 id2) ≡ id1 * 2 ^ 32 + id2 =
      hex_value-onto 8 0 id1 (hex_onto 8 id2 []) (omega arith)
      ∙ hex_value-onto 8 (0 + id1) id2 [] (omega arith)
      ∙ (unfold hex_value in omega arith) in
    (
      length-hex_onto 8 id1 (hex_onto 8 id2 []) ∙ ap (λ k. 8 + k) (length-hex_onto 8 id2 []),
      hex_onto-IsHexDigit 8 id1 (hex_onto 8 id2 []) (hex_onto-IsHexDigit 8 id2 [] tt),
      rw value (ground arith),
    )

-- The first eight bytes that an opening gives are no EOF and below 255.
abbrev pub Gives : (ℕ → ℕ) → (ℕ → Option ℕ) → Type 0
Gives b source = (i : ℕ) → i < 8 → (source i ≡ some (b i)) × (b i < 255)

byte_at_lem :
    (b : ℕ → ℕ) (source : ℕ → Option ℕ)
    → Gives b source
    → (i : ℕ) → i < 8
    → byte_at source i ≡ some (b i)
unfolding byte_at
byte_at_lem b source g i le = rw (byte_at, (g i le).0) (let h = (g i le).1 in ground arith)

word_at_lem :
    (b : ℕ → ℕ) (source : ℕ → Option ℕ)
    → Gives b source
    → (i : ℕ) → i < 5
    → word_at source i 4 ≡ some (little_endian b i)
unfolding word_at
word_at_lem b source g i le =
    rw
      (
        word_at,
        byte_at_lem b source g i (omega (arith, le)),
        byte_at_lem b source g (suc i) (omega (arith, le)),
        byte_at_lem b source g (suc (suc i)) (omega (arith, le)),
        byte_at_lem b source g (suc (suc (suc i))) (omega (arith, le)),
      )
      (ap some (omega arith))

word_bound :
    (b : ℕ → ℕ) (source : ℕ → Option ℕ)
    → Gives b source
    → (i : ℕ) → i < 5
    → little_endian b i < 2 ^ 32
word_bound b source g i le =
    let byte : (k : ℕ) → k < 8 → b k < 255 = λ k h. (g k h).1 in
    omega (
      arith,
      byte i (omega (arith, le)),
      byte (suc i) (omega (arith, le)),
      byte (suc (suc i)) (omega (arith, le)),
      byte (suc (suc (suc i))) (omega (arith, le)),
    )

token_of_lem :
    (b : ℕ → ℕ) (source : ℕ → Option ℕ)
    → Gives b source
    → token_of source ≡ some (token_text (little_endian b 0) (little_endian b 4))
unfolding token_of
token_of_lem b source g =
    rw (token_of, word_at_lem b source g 0 (omega arith), word_at_lem b source g 4 (omega arith))

-- An opening at which a byte counts as EOF.
abbrev pub Unlucky : Opening → Type 0
Unlucky o = (source : ℕ → Option ℕ) × (o ≡ some source) × (token_of source ≡ none)

module _ (openings : ℕ → Opening) where
  token_loop_again :
      (fuel i ct : ℕ)
      → Unlucky (openings i)
      → token_loop (suc fuel) openings i (suc ct) ≡ token_loop fuel openings (suc i) (suc ct)
  unfolding token_loop
  token_loop_again fuel i ct (source, o, u) = rw (token_loop, o, u)

  token_loop_reaches :
      (n fuel i : ℕ) (source : ℕ → Option ℕ) (t : Str)
      → n < fuel
      → ((j : ℕ) → j < n → Unlucky (openings (i + j)))
      → openings (i + n) ≡ some source
      → token_of source ≡ some t
      → token_loop fuel openings i 5 ≡ done t
  unfolding token_loop
  token_loop_reaches n zero i source t h un o e = absurd (omega arith)
  token_loop_reaches zero (suc fuel) i source t h un o e =
      let o' : openings i ≡ some source = ap openings (omega arith) ∙ o in rw (token_loop, o', e)
  token_loop_reaches (suc n) (suc fuel) i source t h un o e =
      token_loop_again fuel i 4
        (subst (λ k. Unlucky (openings k)) (omega arith) (un 0 (omega arith)))
      ∙ token_loop_reaches n fuel (suc i) source t (omega arith)
          (λ j k. subst (λ k. Unlucky (openings k)) (omega arith) (un (suc j) (omega arith)))
          (ap openings (omega arith) ∙ o) e

  token_loop_endless :
      ((j : ℕ) → Unlucky (openings j)) → (fuel i : ℕ) → token_loop fuel openings i 5 ≡ no_fuel
  unfolding token_loop
  token_loop_endless un zero i = refl
  token_loop_endless un (suc fuel) i =
      token_loop_again fuel i 4 (un i) ∙ token_loop_endless un fuel (suc i)

  pub generate_token_lem :
      ((n : ℕ) (b : ℕ → ℕ) (source : ℕ → Option ℕ)
        → ((j : ℕ) → j < n → Unlucky (openings j))
        → openings n ≡ some source
        → Gives b source
        → (t : Str) × (generate_token (suc n) openings ≡ done t)
          × IsToken (little_endian b 0 * 2 ^ 32 + little_endian b 4) t)
      × (((j : ℕ) → openings j ≡ none) → generate_token 6 openings ≡ done [])
      × (((j : ℕ) → Unlucky (openings j)) → (fuel : ℕ) → generate_token fuel openings ≡ no_fuel)
  unfolding generate_token
  generate_token_lem = (
    (λ n b source un o g. (
      token_text (little_endian b 0) (little_endian b 4),
      token_loop_reaches n (suc n) 0 source _ (omega arith)
          (λ j k. subst (λ i. Unlucky (openings i)) (omega arith) (un j k))
          (ap openings (omega arith) ∙ o) (token_of_lem b source g),
      token_text-IsToken (little_endian b 0) (little_endian b 4)
          (word_bound b source g 0 (omega arith)) (word_bound b source g 4 (omega arith)),
    )),
    (λ h. unfold token_loop in rw (token_loop, h 0, h 1, h 2, h 3, h 4)),
    λ h fuel. token_loop_endless h fuel 0,
  )
