-- ===== src/Text/Find.antt =====
-- Facts about `find` and comparison (no code of its own).
use vyatta_rest.Prelude.{
  ℕ, ◌+◌, ◌≡◌, ◌≢◌, ◌↔◌, refl, true, false, [], ◌∷◌, ◌++◌, none, some, arith, length, ltb,
  length-append, drop-length, Bool-cases, ◌==◌, ◌⊎◌, inl, inr, ap,
}
use vyatta_rest.Text.{Str, str_eq, starts_with, find, find_from, contains, shift}

pub str_eq_iff : (a b : Str) → (str_eq a b ≡ true) ↔ (a ≡ b)
unfolding str_eq
str_eq_iff (x ∷ a) (y ∷ b) = ground (arith, str_eq_iff a b)
str_eq_iff _ _ = ground arith

pub str_eq_refl : (a : Str) → str_eq a a ≡ true
str_eq_refl a = (str_eq_iff a a).1 refl

pub starts_with-append : (p s : Str) → starts_with p (p ++ s) ≡ true
unfolding starts_with
starts_with-append [] s = refl
starts_with-append (x ∷ p) s = ground (arith, starts_with-append p s)

-- The text holds no byte `c`.
abbrev pub Lacks : ℕ → Str → Type 0
Lacks c [] = Unit
Lacks c (x ∷ s) = (x ≢ c) × Lacks c s

pub Lacks-append : (c : ℕ) (s t : Str) → Lacks c s → Lacks c t → Lacks c (s ++ t)
Lacks-append c [] t h k = k
Lacks-append c (x ∷ s) t h k = (h.0, Lacks-append c s t h.1 k)

-- A text that lacks the first byte of `c ∷ p` in front of it is found behind.
pub find-skip :
    (c : ℕ) (p s t : Str) → Lacks c s → find (c ∷ p) (s ++ (c ∷ p ++ t)) ≡ some (length s)
unfolding find starts_with
find-skip c p [] t h = ground (arith, starts_with-append (c ∷ p) t)
find-skip c p (x ∷ s) t h = ground (arith, find-skip c p s t h.1)

pub find-Lacks : (c : ℕ) (p s : Str) → Lacks c s → find (c ∷ p) s ≡ none
unfolding find starts_with
find-Lacks c p [] h = refl
find-Lacks c p (x ∷ s) h = ground (arith, find-Lacks c p s h.1)

-- A text that lacks the first byte of what is looked for is passed over.
pub find-past :
    (c : ℕ) (p s t : Str)
    → Lacks c s
    → find (c ∷ p) (s ++ t) ≡ elim (find (c ∷ p) t) [ none ↦ none | some n ↦ some (length s + n) ]
unfolding find starts_with
find-past c p [] t h = ground arith
find-past c p (x ∷ s) t h = ground (arith, find-past c p s t h.1)

pub contains-none : (p s : Str) → find p s ≡ none → contains p s ≡ false
unfolding contains
contains-none p s e = rw (e, contains)

pub contains-some : (p s : Str) {n : ℕ} → find p s ≡ some n → contains p s ≡ true
unfolding contains
contains-some p s e = rw (e, contains)

-- A search from behind a prefix.
pub find_from-past :
    (p pre s : Str) → find_from p (pre ++ s) (length pre) ≡ shift (length pre) (find p s)
unfolding find_from
find_from-past p pre s =
    let h : ltb (length (pre ++ s)) (length pre) ≡ false = ground (arith, length-append pre s) in
    rw (find_from, h, drop-length pre s)

-- A text is without a byte, or it is cut at the first one.
abbrev pub Cut : ℕ → Str → Type 0
Cut c s = Lacks c s ⊎ ((a : Str) × (b : Str) × (s ≡ a ++ c ∷ b) × Lacks c a)

pub cut : (c : ℕ) (s : Str) → Cut c s
cut c [] = inl tt
cut c (x ∷ s) = elim (Bool-cases (x == c)) [
  | inl e ↦ let q : x ≡ c = ground (arith, e) in inr ([], s, ap (λ y. y ∷ s) q, tt)
  | inr e ↦
      let n : x ≢ c = λ q. ground (arith, e, q) in
      elim (cut c s) [
        | inl h ↦ inl (n, h)
        | inr (a, b, q, h) ↦ inr (x ∷ a, b, ap (◌∷◌ x) q, (n, h))
      ]
]
