-- ===== src/StrProc/Marks.antt =====
-- The loop of src/server/rl_str_proc.cc that puts '~' for the token, and looks again from the '~'.
use vyatta_rest.Prelude.{
  ℕ, zero, suc, ◌+◌, ◌<◌, ◌≡◌, ◌≢◌, refl, ◌∙◌, false, [], ◌∷◌, ◌++◌, Option, none, some, arith,
  length, append_assoc, ◌==◌, if◌then◌else◌,
}
use native.Mathlib.Nat.{add-zero}
use vyatta_rest.Text.{Str, codes, find, starts_with}
use vyatta_rest.Outcome.{done}
use vyatta_rest.Rest.{replace_loop}
use vyatta_rest.Rest.Replace.{Replaces, Found, find-Found, replace_loop-hit, replace_loop_end}
use vyatta_rest.Rest.Unique.{Replaces-keep}

-- The bytes that are not '~', which each round makes fewer.
abbrev others : Str → ℕ
others [] = 0
others (x ∷ s) = if x == b'~' then others s else suc (others s)

others-append : (s t : Str) → others (s ++ t) ≡ others s + others t
others-append [] t = omega arith
others-append (x ∷ s) t = ground (arith, others-append s t)

others-le-length : (s : Str) → others s < suc (length s)
others-le-length [] = omega arith
others-le-length (x ∷ s) = ground (arith, others-le-length s)

abbrev Ends : ℕ → Str → Str → Str → Type 0
Ends fuel v d s =
    (t : Str) × (replace_loop fuel v (codes "~") 0 (d ++ s) (length d) ≡ done (d ++ t))
    × Replaces v (codes "~") s t

tilde_keeps : (c : ℕ) (p b : Str) → c ≢ b'~' → starts_with (c ∷ p) (b'~' ∷ b) ≡ false
unfolding starts_with
tilde_keeps c p b h = ground arith

module _ (c : ℕ) (p : Str) (ne : c ≢ b'~') where
  Ends-hit :
      (fuel : ℕ) (d a b : Str) {s : Str}
      → s ≡ a ++ (c ∷ p ++ b)
      → find (c ∷ p) s ≡ some (length a)
      → ((t : Str)
          → Replaces (c ∷ p) (codes "~") b t
          → Replaces (c ∷ p) (codes "~") s (a ++ (codes "~" ++ t)))
      → Ends fuel (c ∷ p) (d ++ a) (b'~' ∷ b)
      → Ends (suc fuel) (c ∷ p) d s
  Ends-hit fuel d a b {s} q e k (u, i, h) =
      let (t, w, h') = Replaces-keep b'~' b (tilde_keeps c p b ne) h refl in
      (
        a ++ (b'~' ∷ t),
        rw q (
            replace_loop-hit fuel 0 (c ∷ p) (codes "~") d a b (rw q at e)
            ∙ rw add-zero (i ∙ rw (← append_assoc d a (b'~' ∷ t)) (cc))),
        k t h',
      )

  fewer : (a b s : Str) → s ≡ a ++ (c ∷ p ++ b) → others b < others s
  fewer a b s q = rw q (ground (arith, others-append a (c ∷ p ++ b), others-append p b))

  Ends-Found :
      (fuel : ℕ) (d s : Str)
      → others s < suc fuel
      → ((e b : Str) → others b < fuel → Ends fuel (c ∷ p) e b)
      → (o : Option ℕ) → find (c ∷ p) s ≡ o
      → Found (c ∷ p) (codes "~") s o
      → Ends (suc fuel) (c ∷ p) d s
  Ends-Found fuel d s h rec none e f = (s, replace_loop_end fuel 0 (c ∷ p) (codes "~") d s e, f)
  Ends-Found fuel d s h rec (some n) e (a, b, q, l, k) =
      Ends-hit fuel d a b q (rw l e) k (rec (d ++ a) (b'~' ∷ b) (omega (arith, fewer a b s q)))

  mark_loop : (fuel : ℕ) (d s : Str) → others s < fuel → Ends fuel (c ∷ p) d s
  mark_loop zero d s h = absurd (omega arith)
  mark_loop (suc fuel) d s h =
      Ends-Found fuel d s h (mark_loop fuel) (find (c ∷ p) s) refl (find-Found c p (codes "~") s)

  -- With the fuel of the constructor, the loop ends with every token replaced by '~'.
  pub marked :
      (s : Str)
      → (t : Str) × (replace_loop (suc (length s)) (c ∷ p) (codes "~") 0 s 0 ≡ done t)
        × Replaces (c ∷ p) (codes "~") s t
  marked s = mark_loop (suc (length s)) [] s (others-le-length s)
