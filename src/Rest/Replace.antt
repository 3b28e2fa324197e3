-- ===== src/Rest/Replace.antt =====
-- What `Rest::mass_replace` computes (src/server/common.cc), against a description that reads the
-- source once from the left.
use vyatta_rest.Prelude.{
  ℕ, zero, suc, ◌+◌, ◌<◌, ◌≡◌, ◌≢◌, refl, ap, ◌∙◌, true, false, [], ◌∷◌, ◌++◌, Option, none, some,
  arith, length, drop, length-append, drop-length, take-length, append_assoc, Bool-cases, inl, inr,
  ==_iff, ◌==◌, if◌then◌else◌,
}
use vyatta_rest.Text.{Str, find, find_from, starts_with, replace_at}
use vyatta_rest.Rest.{mass_replace, replace_loop}
use vyatta_rest.Outcome.{done}

-- `t` is `s` with every occurrence of `v` replaced by `r`: occurrences are taken from the left and
-- do not overlap, and what was put in is not read again.
pub data Replaces (v r : Str) : Str → Str → Type 0 where
  end : Replaces v r [] []
  keep :
      {s t : Str} (x : ℕ)
      → starts_with v (x ∷ s) ≡ false
      → Replaces v r s t
      → Replaces v r (x ∷ s) (x ∷ t)
  hit : {s t : Str} → Replaces v r s t → Replaces v r (v ++ s) (r ++ t)

starts_with-split : (p s : Str) → starts_with p s ≡ true → (b : Str) × (s ≡ p ++ b)
unfolding starts_with
starts_with-split [] s h = (s, refl)
starts_with-split (x ∷ p) [] h = cc
starts_with-split (x ∷ p) (y ∷ s) h = elim (Bool-cases (x == y)) [
  | inl e ↦ let (b, q) = starts_with-split p s (rw e at h) in (b, cc ((==_iff x y).0 e))
  | inr e ↦ cc
]

find_from-append :
    (p d s : Str)
    → find_from p (d ++ s) (length d)
      ≡ elim (find p s) [ none ↦ none | some n ↦ some (length d + n) ]
unfolding find_from
find_from-append p d s = rw (drop-length d s) (ground (arith, length-append d s))

-- The text up to the first occurrence, and what replacing in the remainder gives for the whole.
abbrev pub Found : Str → Str → Str → Option ℕ → Type 0
Found v r s none = Replaces v r s s
Found v r s (some n) =
    (a : Str) × (b : Str) × (s ≡ a ++ (v ++ b))
    × (length a ≡ n)
    × ((t : Str) → Replaces v r b t → Replaces v r s (a ++ (r ++ t)))

Found-later :
    (c : ℕ) (p r s : Str) (x : ℕ) (o : Option ℕ)
    → starts_with (c ∷ p) (x ∷ s) ≡ false
    → Found (c ∷ p) r s o
    → Found (c ∷ p) r (x ∷ s) (elim o [ none ↦ none | some n ↦ some (suc n) ])
Found-later c p r s x none e h = keep x e h
Found-later c p r s x (some n) e (a, b, q, l, h) =
    (x ∷ a, b, ap (◌∷◌ x) q, ap suc l, λ t k. keep x e (h t k))

pub find-Found : (c : ℕ) (p r s : Str) → Found (c ∷ p) r s (find (c ∷ p) s)
unfolding find
find-Found c p r [] = end
find-Found c p r (x ∷ s) = elim (Bool-cases (starts_with (c ∷ p) (x ∷ s))) [
  | inl e ↦
      let (b, q) = starts_with-split (c ∷ p) (x ∷ s) e in rw e ([], b, q, refl, λ t h. rw q (hit h))
  | inr e ↦ rw e (Found-later c p r s x (find (c ∷ p) s) e (find-Found c p r s))
]

drop-append_both : (e v b : Str) → drop (length e + length v) (e ++ (v ++ b)) ≡ b
drop-append_both e v b = rw (← length-append e v, ← append_assoc e v b) (drop-length (e ++ v) b)

pub replace_at-append :
    (e v b r : Str) → replace_at (e ++ (v ++ b)) (length e) (length v) r ≡ e ++ (r ++ b)
replace_at-append e v b r = rw (take-length e (v ++ b), drop-append_both e v b)

-- One round of the loop, at a text whose next occurrence is known.
pub replace_loop-hit :
    (fuel jump : ℕ) (v r d a b : Str)
    → find v (a ++ (v ++ b)) ≡ some (length a)
    → replace_loop (suc fuel) v r jump (d ++ (a ++ (v ++ b))) (length d)
      ≡ replace_loop fuel v r jump ((d ++ a) ++ (r ++ b)) (length (d ++ a) + jump)
unfolding replace_loop
replace_loop-hit fuel jump v r d a b e =
    rw (find_from-append v d (a ++ (v ++ b)), replace_loop)
      (rw (e, replace_loop, ← length-append d a, ← append_assoc d a (v ++ b))
        (rw (replace_at-append (d ++ a) v b r)))

pub replace_loop_end :
    (fuel jump : ℕ) (v r d s : Str)
    → find v s ≡ none
    → replace_loop (suc fuel) v r jump (d ++ s) (length d) ≡ done (d ++ s)
unfolding replace_loop
replace_loop_end fuel jump v r d s e =
    rw (find_from-append v d s, replace_loop) (rw (e, replace_loop))

-- From the position behind `d`, the loop ends with `d` and the replacement of what follows.
abbrev Ends : ℕ → Str → Str → Str → Str → Type 0
Ends fuel v r d s =
    (t : Str) × (replace_loop fuel v r (length r) (d ++ s) (length d) ≡ done (d ++ t))
    × Replaces v r s t

Ends-hit :
    (fuel : ℕ) (v r d a b : Str) {s : Str}
    → s ≡ a ++ (v ++ b)
    → find v s ≡ some (length a)
    → ((t : Str) → Replaces v r b t → Replaces v r s (a ++ (r ++ t)))
    → Ends fuel v r ((d ++ a) ++ r) b
    → Ends (suc fuel) v r d s
Ends-hit fuel v r d a b {s} q e k (t, i, h) = (
  a ++ (r ++ t),
  rw q (
      replace_loop-hit fuel (length r) v r d a b (rw q at e)
      ∙ rw (← length-append (d ++ a) r, ← append_assoc (d ++ a) r b) (i ∙ simp append_assoc)),
  k t h,
)

Ends-Found :
    (fuel c : ℕ) (p r d s : Str)
    → ((e b : Str) → length b < length s → Ends fuel (c ∷ p) r e b)
    → (o : Option ℕ) → find (c ∷ p) s ≡ o
    → Found (c ∷ p) r s o
    → Ends (suc fuel) (c ∷ p) r d s
Ends-Found fuel c p r d s rec none e f = (s, replace_loop_end fuel (length r) (c ∷ p) r d s e, f)
Ends-Found fuel c p r d s rec (some n) e (a, b, q, l, k) =
    Ends-hit fuel (c ∷ p) r d a b q (rw l e) k
      (rec (d ++ a ++ r) b (rw q (omega (arith, length-append a (c ∷ p ++ b), length-append p b))))

replace_loop-Ends : (fuel c : ℕ) (p r d s : Str) → length s < fuel → Ends fuel (c ∷ p) r d s
replace_loop-Ends zero c p r d s h = absurd (omega arith)
replace_loop-Ends (suc fuel) c p r d s h =
    Ends-Found fuel c p r d s (λ e b k. replace_loop-Ends fuel c p r e b (omega arith))
      (find (c ∷ p) s) refl (find-Found c p r s)

-- Replacing a non-empty text ends, with every occurrence replaced.
pub mass_replace-Replaces :
    (source victim replacement : Str)
    → victim ≢ []
    → (answer : Str) × (mass_replace source victim replacement ≡ done answer)
      × Replaces victim replacement source answer
unfolding mass_replace
mass_replace-Replaces source [] replacement ne = absurd (ne refl)
mass_replace-Replaces source (c ∷ p) replacement ne =
    replace_loop-Ends (suc (length source)) c p replacement [] source (omega arith)

-- The one-byte case as a plain recursion.
abbrev pub replace_byte : ℕ → Str → Str → Str
replace_byte c r [] = []
replace_byte c r (x ∷ s) = if x == c then r ++ replace_byte c r s else x ∷ replace_byte c r s

Replaces-replace_byte :
    (c : ℕ) {v r s t : Str} → v ≡ c ∷ [] → Replaces v r s t → t ≡ replace_byte c r s
unfolding starts_with
Replaces-replace_byte c e end = refl
Replaces-replace_byte c {v} {r} e (keep {s} {t} x n h) =
    let n' : starts_with (c ∷ []) (x ∷ s) ≡ false = rw e at n in
    ground (arith, Replaces-replace_byte c e h)
Replaces-replace_byte c {v} {r} e (hit {s} {t} h) =
    rw e (ground (arith, Replaces-replace_byte c e h))

-- Replacing a one-byte text replaces each such byte.
pub mass_replace-byte : (s r : Str) (c : ℕ) → mass_replace s (c ∷ []) r ≡ done (replace_byte c r s)
mass_replace-byte s r c =
    let (t, e, h) = mass_replace-Replaces s (c ∷ []) r (λ e. cc) in
    e ∙ ap done (Replaces-replace_byte c refl h)
