-- ===== src/StrProc/Pieces.antt =====
-- The last loop of src/server/rl_str_proc.cc against a description by one pass, and the whole
-- constructor of StrProc.
use vyatta_rest.Prelude.{
  ℕ, zero, suc, ◌<◌, ◌≡◌, ◌≢◌, refl, subst, sym, ◌∙◌, true, false, List, [], ◌∷◌, ◌++◌, Option,
  none, some, arith, length, append_assoc, append-nil, ◌==◌, if◌then◌else◌, take, drop, Bool-cases,
  inl, inr, ==_iff,
}
use vyatta_rest.Text.{Str, codes, find, starts_with}
use vyatta_rest.Outcome.{Outcome, done}
use vyatta_rest.StrProc.{after_piece, split_at, first_not_tilde, split_loop}

abbrev pub flush : Str → List Str
flush [] = []
flush (x ∷ s) = (x ∷ s) ∷ []

-- The maximal non-empty runs of bytes other than '~'; `piece` is the run read so far.
unfoldable pub runs : Str → Str → List Str
runs piece [] = flush piece
runs piece (x ∷ s) = if x == b'~' then flush piece ++ runs [] s else runs (piece ++ x ∷ []) s

-- What `find_first_not_of("~")` says of the runs.
abbrev Skipped : Str → Option ℕ → Type 0
Skipped s none = runs [] s ≡ []
Skipped s (some n) =
    (x : ℕ) × (u : Str) × (drop n s ≡ x ∷ u)
    × (x ≢ b'~')
    × (length u < length s)
    × (runs [] s ≡ runs (x ∷ []) u)

Skipped-cons :
    (s : Str) (o : Option ℕ)
    → Skipped s o
    → Skipped (b'~' ∷ s) (elim o [ none ↦ none | some n ↦ some (suc n) ])
unfolding runs
Skipped-cons s none h = h
Skipped-cons s (some n) (x, u, d, ne, l, r) = (x, u, d, ne, omega arith, r)

tilde_first :
    (x : ℕ) (s : Str)
    → Skipped s (first_not_tilde s)
    → (x == b'~') ≡ true
    → Skipped (x ∷ s) (first_not_tilde (x ∷ s))
unfolding first_not_tilde
tilde_first x s h e =
    subst (λ z. Skipped (z ∷ s) (first_not_tilde (z ∷ s))) (sym ((==_iff x b'~').0 e))
      (Skipped-cons s (first_not_tilde s) h)

other_first : (x : ℕ) (s : Str) → (x == b'~') ≡ false → Skipped (x ∷ s) (first_not_tilde (x ∷ s))
unfolding first_not_tilde runs
other_first x s e = rw e (x, s, refl, ground arith, omega arith, rw e)

first_not_tilde-Skipped : (s : Str) → Skipped s (first_not_tilde s)
first_not_tilde-Skipped [] = unfold first_not_tilde runs in refl
first_not_tilde-Skipped (x ∷ s) = elim (Bool-cases (x == b'~')) [
  | inl e ↦ tilde_first x s (first_not_tilde-Skipped s) e
  | inr e ↦ other_first x s e
]

abbrev Closed : Str → Str → Option ℕ → Type 0
Closed piece s none = runs piece s ≡ flush (piece ++ s)
Closed piece s (some e) =
    (runs piece s ≡ flush (piece ++ take e s) ++ runs [] (drop (suc e) s))
    × (length (drop (suc e) s) < length s)

Closed-cons :
    (piece : Str) (x : ℕ) (s : Str) (o : Option ℕ)
    → (x == b'~') ≡ false
    → Closed (piece ++ x ∷ []) s o
    → Closed piece (x ∷ s) (elim o [ none ↦ none | some n ↦ some (suc n) ])
unfolding runs
Closed-cons piece x s none e h = rw e (h ∙ rw append_assoc)
Closed-cons piece x s (some n) e h = (rw e (h.0 ∙ rw append_assoc), omega arith)

Closed-here :
    (piece : Str) (x : ℕ) (s : Str)
    → (b'~' == x) ≡ true
    → Closed piece (x ∷ s) (find (codes "~") (x ∷ s))
unfolding find starts_with runs
Closed-here piece x s e =
    subst (λ z. Closed piece (z ∷ s) (find (codes "~") (z ∷ s))) ((==_iff b'~' x).0 e)
      (rw append-nil, omega arith)

Closed-later :
    (piece : Str) (x : ℕ) (s : Str)
    → Closed (piece ++ x ∷ []) s (find (codes "~") s)
    → (b'~' == x) ≡ false
    → Closed piece (x ∷ s) (find (codes "~") (x ∷ s))
unfolding find starts_with
Closed-later piece x s h e = rw e (Closed-cons piece x s (find (codes "~") s) (ground arith) h)

find-Closed : (piece s : Str) → Closed piece s (find (codes "~") s)
find-Closed piece [] = unfold runs find in rw append-nil
find-Closed piece (x ∷ s) = elim (Bool-cases (b'~' == x)) [
  | inl e ↦ Closed-here piece x s e
  | inr e ↦ Closed-later piece x s (find-Closed (piece ++ x ∷ []) s) e
]

-- From a text that starts a run, one round of the loop.
after_piece-runs :
    (again : Str → Outcome (List Str)) (x : ℕ) (s : Str) (o : Option ℕ)
    → ((u : Str) → length u < length s → again u ≡ done (runs [] u))
    → Closed (x ∷ []) s o
    → after_piece again (x ∷ s) (elim o [ none ↦ none | some n ↦ some (suc n) ])
      ≡ done (runs (x ∷ []) s)
unfolding after_piece
after_piece-runs again x s none rec h = rw h
after_piece-runs again x s (some n) rec h = rw (rec (drop (suc n) s) h.1, h.0)

find_past :
    (x : ℕ) (s : Str)
    → x ≢ b'~'
    → find (codes "~") (x ∷ s) ≡ elim (find (codes "~") s) [ none ↦ none | some n ↦ some (suc n) ]
unfolding find starts_with
find_past x s ne = ground arith

split_at-runs :
    (again : Str → Outcome (List Str)) (s : Str) (o : Option ℕ)
    → ((u : Str) → length u < length s → again u ≡ done (runs [] u))
    → Skipped s o
    → split_at again s o ≡ done (runs [] s)
unfolding split_at
split_at-runs again s none rec h = rw h
split_at-runs again s (some n) rec (x, u, d, ne, l, r) =
    rw (d, find_past x u ne, r)
      (after_piece-runs again x u (find (codes "~") u) (λ w k. rec w (omega arith))
        (find-Closed (x ∷ []) u))

pub split_loop-runs : (fuel : ℕ) (s : Str) → length s < fuel → split_loop fuel s ≡ done (runs [] s)
unfolding split_loop
split_loop-runs zero s h = absurd (omega arith)
split_loop-runs (suc fuel) s h =
    split_at-runs (split_loop fuel) s (first_not_tilde s)
      (λ u k. split_loop-runs fuel u (omega arith)) (first_not_tilde-Skipped s)
