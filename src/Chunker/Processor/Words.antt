-- ===== src/Chunker/Processor/Words.antt =====
-- How tokenizeOpCmd of src/server/chunker2_processor.cc cuts a command line of quoted arguments.
use vyatta_rest.Prelude.{
  ℕ, zero, suc, ◌+◌, ◌-◌, ◌<◌, ◌≡◌, ◌≢◌, refl, ap, sym, ◌∙◌, true, false, List, [], ◌∷◌, ◌++◌,
  Option, none, some, arith, length, take, ltb, ◌==◌, All, length-append, take-length, drop-length,
  append_assoc, append-nil, Option-cases, Bool-cases, inl, inr,
}
use vyatta_rest.Text.{
  c_str, Str, codes, empty, str_eq, find, find_from, starts_with, shift, substr?,
}
use vyatta_rest.Text.Find.{Lacks, find-skip, find_from-past}
use vyatta_rest.Outcome.{done, substr}
use vyatta_rest.Rest.Modify.Found.{c_str-Lacks}
use vyatta_rest.Chunker.Processor.{
  opens_at, quoted_at, behind_quote, push_word, last_word, tokenize_loop, tokenize_op_cmd,
}

-- The arguments behind the first, as translate_rest_to_cli writes them.
abbrev pub quoted_words : List Str → Str
quoted_words [] = []
quoted_words (u ∷ us) = b' ' ∷ b'\'' ∷ (u ++ b'\'' ∷ quoted_words us)

substr-past : (pre w s : Str) → substr (pre ++ (w ++ s)) (length pre) (length w) ≡ done w
unfolding substr?
substr-past pre w s =
    let h : ltb (length (pre ++ (w ++ s))) (length pre) ≡ false =
      ground (arith, length-append pre (w ++ s)) in
    rw (substr?, h, drop-length pre (w ++ s), take-length w s)

take-nil : (n : ℕ) → Path Str (take n []) []
take-nil zero = refl
take-nil (suc n) = refl

substr-end : (pre : Str) (n : ℕ) → substr (pre ++ []) (length pre) n ≡ done []
unfolding substr?
substr-end pre n =
    let h : ltb (length (pre ++ [])) (length pre) ≡ false = ground (arith, length-append pre []) in
    rw (substr?, h, drop-length pre [], take-nil n)

opens_at-quote :
    (pre s : Str)
    → opens_at (length pre) (find_from (codes "'") (pre ++ b'\'' ∷ s) (length pre)) ≡ true
unfolding opens_at find starts_with
opens_at-quote pre s = rw (find_from-past (codes "'") pre (b'\'' ∷ s)) (ground arith)

opens_at-later :
    (n : ℕ) (o : Option ℕ)
    → opens_at n (shift n (elim o [ none ↦ none | some k ↦ some (suc k) ])) ≡ false
unfolding opens_at
opens_at-later n none = refl
opens_at-later n (some k) = ground arith

opens_at-other :
    (pre s : Str) (x : ℕ)
    → x ≢ b'\''
    → opens_at (length pre) (find_from (codes "'") (pre ++ x ∷ s) (length pre)) ≡ false
unfolding find starts_with
opens_at-other pre s x h =
    let e : find (codes "'") (x ∷ s)
        ≡ elim (find (codes "'") s) [ none ↦ none | some k ↦ some (suc k) ] =
      ground (arith, h) in
    rw (find_from-past (codes "'") pre (x ∷ s), e)
      (opens_at-later (length pre) (find (codes "'") s))

opens_at-nil :
    (pre : Str) → opens_at (length pre) (find_from (codes "'") (pre ++ []) (length pre)) ≡ false
unfolding opens_at find
opens_at-nil pre = rw (find_from-past (codes "'") pre [])

-- A byte that stands somewhere is found.
find_somewhere : (c : ℕ) (s t : Str) → (n : ℕ) × (find (c ∷ []) (s ++ c ∷ t) ≡ some n)
unfolding find starts_with
find_somewhere c [] t = (0, ground arith)
find_somewhere c (x ∷ s) t =
    let (n, e) = find_somewhere c s t in
    elim (Bool-cases (x == c)) [
      | inl h ↦ (0, ground (arith, h))
      | inr h ↦ (suc n, ground (arith, h, e))
    ]

-- Between the quotes.
quoted_at-past :
    (pre u s : Str)
    → Lacks b'\'' u
    → (find_from (codes "'") (pre ++ b'\'' ∷ (u ++ b'\'' ∷ s)) (length pre + 1)
        ≡ some (length pre + 1 + length u))
      × (quoted_at (pre ++ b'\'' ∷ (u ++ b'\'' ∷ s)) (length pre) (some (length pre + 1 + length u))
          ≡ done u)
unfolding quoted_at
quoted_at-past pre u s l =
    let q : pre ++ b'\'' ∷ (u ++ b'\'' ∷ s) ≡ (pre ++ b'\'' ∷ []) ++ (u ++ b'\'' ∷ s) =
      sym (append_assoc pre (b'\'' ∷ []) (u ++ b'\'' ∷ s)) in
    let n : length pre + 1 ≡ length (pre ++ b'\'' ∷ []) =
      omega (arith, length-append pre (b'\'' ∷ [])) in
    let k : length pre + 1 + length u - length pre - 1 ≡ length u = omega arith in
    (
      rw (q, n)
          (find_from-past (codes "'") (pre ++ b'\'' ∷ []) (u ++ b'\'' ∷ s)
            ∙ ap (shift (length (pre ++ b'\'' ∷ []))) (find-skip b'\'' [] u s l)),
      ap (substr (pre ++ b'\'' ∷ (u ++ b'\'' ∷ s)) (length pre + 1)) k
          ∙ rw (q, n) (substr-past (pre ++ b'\'' ∷ []) u (b'\'' ∷ s)),
    )

module _ (fuel : ℕ) (pre : Str) (arr : List Str) where
  opens_at-word :
      (w t : Str)
      → Lacks b'\'' w
      → opens_at (length pre) (find_from (codes "'") (pre ++ (w ++ b' ' ∷ t)) (length pre)) ≡ false
  opens_at-word [] t l = opens_at-other pre t b' ' (λ e. absurd (omega arith))
  opens_at-word (x ∷ w) t l = opens_at-other pre (w ++ b' ' ∷ t) x l.0

  -- A word up to a blank.
  word_step :
      (w t : Str)
      → Lacks b' ' w
      → Lacks b'\'' w
      → tokenize_loop (suc fuel) (pre ++ (w ++ b' ' ∷ t)) (length pre) arr
        ≡ tokenize_loop fuel
            ((pre ++ (w ++ b' ' ∷ [])) ++ t)
            (length (pre ++ (w ++ b' ' ∷ [])))
            (push_word w arr)
  unfolding tokenize_loop
  word_step w t l m =
      let cmd = pre ++ (w ++ b' ' ∷ t) in
      let f : find_from (codes " ") cmd (length pre) ≡ some (length pre + length w) =
        find_from-past (codes " ") pre (w ++ b' ' ∷ t)
        ∙ ap (shift (length pre)) (find-skip b' ' [] w t l) in
      let k : length pre + length w - length pre ≡ length w = omega arith in
      let n : length pre + length w + 1 ≡ length (pre ++ (w ++ b' ' ∷ [])) =
        omega (arith, length-append pre (w ++ b' ' ∷ []), length-append w (b' ' ∷ [])) in
      let c : cmd ≡ (pre ++ (w ++ b' ' ∷ [])) ++ t =
        ap (λ s. pre ++ s) (sym (append_assoc w (b' ' ∷ []) t))
        ∙ sym (append_assoc pre (w ++ b' ' ∷ []) t) in
      rw (tokenize_loop, f, opens_at-word w t m, k, substr-past pre w (b' ' ∷ t))
        (ap (λ s. tokenize_loop fuel s (length pre + length w + 1) (push_word w arr)) c
          ∙ ap (λ i. tokenize_loop fuel ((pre ++ (w ++ b' ' ∷ [])) ++ t) i (push_word w arr)) n)

  -- A quoted argument, with a blank somewhere behind the quote.
  quote_step :
      (u s : Str) (n : ℕ)
      → Lacks b'\'' u
      → find (codes " ") (b'\'' ∷ (u ++ b'\'' ∷ s)) ≡ some n
      → tokenize_loop (suc fuel) (pre ++ b'\'' ∷ (u ++ b'\'' ∷ s)) (length pre) arr
        ≡ tokenize_loop fuel
            ((pre ++ b'\'' ∷ (u ++ b'\'' ∷ [])) ++ s)
            (length (pre ++ b'\'' ∷ (u ++ b'\'' ∷ [])))
            (arr ++ c_str u ∷ [])
  unfolding tokenize_loop behind_quote
  quote_step u s n l h =
      let cmd = pre ++ b'\'' ∷ (u ++ b'\'' ∷ s) in
      let f : find_from (codes " ") cmd (length pre) ≡ some (length pre + n) =
        find_from-past (codes " ") pre (b'\'' ∷ (u ++ b'\'' ∷ s)) ∙ ap (shift (length pre)) h in
      let (a, b) = quoted_at-past pre u s l in
      let i : length pre + 1 + length u + 1 ≡ length (pre ++ b'\'' ∷ (u ++ b'\'' ∷ [])) =
        omega
          (arith, length-append pre (b'\'' ∷ (u ++ b'\'' ∷ [])), length-append u (b'\'' ∷ [])) in
      let c : cmd ≡ (pre ++ b'\'' ∷ (u ++ b'\'' ∷ [])) ++ s =
        ap (λ t. pre ++ b'\'' ∷ t) (sym (append_assoc u (b'\'' ∷ []) s))
        ∙ sym (append_assoc pre (b'\'' ∷ (u ++ b'\'' ∷ [])) s) in
      rw (tokenize_loop, f, opens_at-quote pre (u ++ b'\'' ∷ s), a, b)
        (ap (λ t. tokenize_loop fuel t (length pre + 1 + length u + 1) (arr ++ c_str u ∷ [])) c
          ∙ ap
              (λ j.
                tokenize_loop fuel ((pre ++ b'\'' ∷ (u ++ b'\'' ∷ [])) ++ s) j
                  (arr ++ c_str u ∷ []))
              i)

  not_quotes : (u : Str) → Lacks b'\'' u → str_eq u (codes "''") ≡ false
  unfolding str_eq
  not_quotes [] l = refl
  not_quotes (x ∷ u) l = ground (arith, l.0)

  nonempty : (u : Str) → u ≢ [] → empty u ≡ false
  nonempty [] h = absurd (h refl)
  nonempty (x ∷ u) h = refl

  -- A quoted argument, with no blank behind the quote, ends the line.
  quote_last :
      (u s : Str)
      → Lacks b'\'' u
      → u ≢ []
      → find (codes " ") (b'\'' ∷ (u ++ b'\'' ∷ s)) ≡ none
      → tokenize_loop (suc fuel) (pre ++ b'\'' ∷ (u ++ b'\'' ∷ s)) (length pre) arr
        ≡ done (arr ++ c_str u ∷ [])
  unfolding tokenize_loop last_word push_word
  quote_last u s l ne h =
      let f : find_from (codes " ") (pre ++ b'\'' ∷ (u ++ b'\'' ∷ s)) (length pre) ≡ none =
        find_from-past (codes " ") pre (b'\'' ∷ (u ++ b'\'' ∷ s)) ∙ ap (shift (length pre)) h in
      let (a, b) = quoted_at-past pre u s l in
      rw (
        tokenize_loop,
        f,
        last_word,
        opens_at-quote pre (u ++ b'\'' ∷ s),
        a,
        b,
        not_quotes u l,
        push_word,
        nonempty u ne,
      )

  -- Nothing is left.
  line_end : tokenize_loop (suc fuel) (pre ++ []) (length pre) arr ≡ done arr
  unfolding tokenize_loop last_word push_word find str_eq
  line_end =
      let e : substr (pre ++ []) (length pre) (length (pre ++ []) - length pre + 1) ≡ done [] =
        substr-end pre (length (pre ++ []) - length pre + 1) in
      rw (tokenize_loop, find_from-past (codes " ") pre [], last_word, opens_at-nil pre, e)

-- An argument that a quoted word can carry.
abbrev pub IsArgument : Str → Type 0
IsArgument u = (u ≢ []) × Lacks b'\'' u × Lacks 0 u

-- Behind a quoted word that ends the search for a blank, there is no other.
none_behind : (u v s : Str) → find (codes " ") (b'\'' ∷ (u ++ b'\'' ∷ b' ' ∷ s)) ≢ none
none_behind u v s e =
    let (n, h) = find_somewhere b' ' (b'\'' ∷ (u ++ b'\'' ∷ [])) s in
    let q : b'\'' ∷ (u ++ b'\'' ∷ b' ' ∷ s) ≡ (b'\'' ∷ (u ++ b'\'' ∷ [])) ++ b' ' ∷ s =
      ap (λ t. b'\'' ∷ t) (sym (append_assoc u (b'\'' ∷ []) (b' ' ∷ s))) in
    let k : none ≡ some n = sym e ∙ ap (find (codes " ")) q ∙ h in absurd cc

last_or_more :
    (us : List Str) (u : Str) (fuel : ℕ) (pre : Str) (arr : List Str)
    → IsArgument u
    → find (codes " ") (b'\'' ∷ (u ++ b'\'' ∷ quoted_words us)) ≡ none
    → tokenize_loop (suc fuel) (pre ++ b'\'' ∷ (u ++ b'\'' ∷ quoted_words us)) (length pre) arr
      ≡ done (arr ++ u ∷ us)
last_or_more [] u fuel pre arr (ne, l, z) e =
    quote_last fuel pre arr u [] l ne e ∙ ap (λ w. done (arr ++ w ∷ [])) (c_str-Lacks u z)
last_or_more (v ∷ vs) u fuel pre arr a e =
    absurd (none_behind u v (b'\'' ∷ (v ++ b'\'' ∷ quoted_words vs)) e)

at_quote :
    (us : List Str) (u : Str) (fuel : ℕ) (pre : Str) (arr : List Str)
    → IsArgument u
    → ((pre' : Str) (arr' : List Str)
        → tokenize_loop fuel (pre' ++ quoted_words us) (length pre') arr' ≡ done (arr' ++ us))
    → tokenize_loop (suc fuel) (pre ++ b'\'' ∷ (u ++ b'\'' ∷ quoted_words us)) (length pre) arr
      ≡ done (arr ++ u ∷ us)
at_quote us u fuel pre arr (ne, l, z) rest =
    elim (Option-cases (find (codes " ") (b'\'' ∷ (u ++ b'\'' ∷ quoted_words us)))) [
      | inl e ↦ last_or_more us u fuel pre arr (ne, l, z) e
      | inr (n, e) ↦
          quote_step fuel pre arr u (quoted_words us) n l e
          ∙ rest (pre ++ b'\'' ∷ (u ++ b'\'' ∷ [])) (arr ++ c_str u ∷ [])
          ∙ ap (λ w. done ((arr ++ w ∷ []) ++ us)) (c_str-Lacks u z)
          ∙ ap done (append_assoc arr (u ∷ []) us)
    ]

-- The first word behind which the quoted ones stand.
tokenize-quoted_words :
    (us : List Str) (fuel : ℕ) (pre : Str) (arr : List Str)
    → All IsArgument us
    → length (quoted_words us) < fuel
    → tokenize_loop fuel (pre ++ quoted_words us) (length pre) arr ≡ done (arr ++ us)
unfolding push_word
tokenize-quoted_words us zero pre arr a h = absurd (omega arith)
tokenize-quoted_words [] (suc fuel) pre arr a h =
    line_end fuel pre arr ∙ ap done (sym (append-nil arr))
tokenize-quoted_words (u ∷ us) (suc zero) pre arr a h = absurd (omega arith)
tokenize-quoted_words (u ∷ us) (suc (suc fuel)) pre arr ((ne, l, z), a) h =
    word_step (suc fuel) pre arr [] (b'\'' ∷ (u ++ b'\'' ∷ quoted_words us)) tt tt
    ∙ at_quote us u fuel (pre ++ b' ' ∷ []) arr (ne, l, z)
        (λ pre' arr'.
          tokenize-quoted_words us fuel pre' arr' a
            (omega (arith, length-append u (b'\'' ∷ quoted_words us))))

push_word-word : (w : Str) → w ≢ [] → Lacks 0 w → push_word w [] ≡ w ∷ []
unfolding push_word
push_word-word [] ne z = absurd (ne refl)
push_word-word (x ∷ w) ne z = ap (λ v. v ∷ []) (c_str-Lacks (x ∷ w) z)

-- The command line of a word and of quoted arguments, of which there is at least one, is cut into
-- them: the word is not empty and holds neither a blank nor a quote.
pub tokenize_op_cmd-quoted_words :
    (w u : Str) (us : List Str)
    → w ≢ []
    → Lacks b' ' w
    → Lacks b'\'' w
    → Lacks 0 w
    → All IsArgument (u ∷ us)
    → tokenize_op_cmd (w ++ quoted_words (u ∷ us)) ≡ done (w ∷ u ∷ us)
unfolding tokenize_op_cmd
tokenize_op_cmd-quoted_words w u us ne l m z (x, xs) =
    let t = b'\'' ∷ (u ++ b'\'' ∷ quoted_words us) in
    let k = length w + length t in
    let n : length (w ++ b' ' ∷ t) ≡ suc k = length-append w (b' ' ∷ t) ∙ omega arith in
    word_step (length (w ++ b' ' ∷ t)) [] [] w t l m
    ∙ ap (tokenize_loop (length (w ++ b' ' ∷ t)) ((w ++ b' ' ∷ []) ++ t) (length (w ++ b' ' ∷ [])))
        (push_word-word w ne z)
    ∙ ap (λ f. tokenize_loop f ((w ++ b' ' ∷ []) ++ t) (length (w ++ b' ' ∷ [])) (w ∷ [])) n
    ∙ at_quote us u k (w ++ b' ' ∷ []) (w ∷ []) x (λ pre' arr'.
      tokenize-quoted_words us k pre' arr' xs
        (omega (arith, length-append u (b'\'' ∷ quoted_words us))))
