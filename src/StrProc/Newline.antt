-- ===== src/StrProc/Newline.antt =====
-- The lone newline that the constructor of StrProc takes off (src/server/rl_str_proc.cc).
use vyatta_rest.Prelude.{
  ℕ, suc, ◌+◌, ◌≡◌, ◌∙◌, refl, sym, ap, subst, [], ◌∷◌, ◌++◌, none, some, length, arith,
  Option-cases, inl, inr,
}
use vyatta_rest.Text.{Str, codes, rfind}
use vyatta_rest.Text.Find.{Lacks, find-Lacks, find-skip, cut}
use vyatta_rest.Rest.Replace.{replace_at-append}
use vyatta_rest.StrProc.{remove_newline}

-- A text with no newline stays, one with a single newline loses it, and one with two or more stays.
pub data Unlined : Str → Str → Type 0 where
  without : {s : Str} → Lacks b'\n' s → Unlined s s
  single : (a b : Str) → Lacks b'\n' a → Lacks b'\n' b → Unlined (a ++ b'\n' ∷ b) (a ++ b)
  several :
      (a b d : Str) → Unlined (a ++ (b'\n' ∷ (b ++ b'\n' ∷ d))) (a ++ (b'\n' ∷ (b ++ b'\n' ∷ d)))

rfind-Lacks : (c : ℕ) (s : Str) → Lacks c s → rfind c s ≡ none
unfolding rfind
rfind-Lacks c [] h = refl
rfind-Lacks c (x ∷ s) h = rw (rfind-Lacks c s h.1) (ground (arith, h.0))

rfind-past :
    (c : ℕ) (a t : Str) {m : ℕ} → rfind c t ≡ some m → rfind c (a ++ t) ≡ some (length a + m)
unfolding rfind
rfind-past c [] t h = h ∙ ap some (omega arith)
rfind-past c (x ∷ a) t h = rw (rfind-past c a t h) (ap some (omega arith))

rfind_lone : (c : ℕ) (b : Str) → Lacks c b → rfind c (c ∷ b) ≡ some 0
unfolding rfind
rfind_lone c b h = rw (rfind-Lacks c b h) (ground arith)

rfind_has : (c : ℕ) (b d : Str) → (m : ℕ) × (rfind c (b ++ c ∷ d) ≡ some m)
unfolding rfind
rfind_has c [] d = elim (Option-cases (rfind c d)) [
  | inl e ↦ (0, rw e (ground arith))
  | inr (n, e) ↦ (suc n, rw e)
]
rfind_has c (x ∷ b) d = let (m, e) = rfind_has c b d in (suc m, rw e)

rfind_after : (c : ℕ) (b d : Str) → (m : ℕ) × (rfind c (c ∷ (b ++ c ∷ d)) ≡ some (suc m))
unfolding rfind
rfind_after c b d = let (m, e) = rfind_has c b d in (m, rw (rfind, e))

remove_newline_lone :
    (a b : Str) → Lacks b'\n' a → Lacks b'\n' b → remove_newline (a ++ b'\n' ∷ b) ≡ a ++ b
unfolding remove_newline
remove_newline_lone a b h k =
    rw (find-skip b'\n' [] a b h, rfind-past b'\n' a (b'\n' ∷ b) (rfind_lone b'\n' b k))
      (ground (arith, replace_at-append a (codes "\n") b []))

remove_newline_several :
    (a b d : Str)
    → Lacks b'\n' a
    → remove_newline (a ++ (b'\n' ∷ (b ++ b'\n' ∷ d))) ≡ a ++ (b'\n' ∷ (b ++ b'\n' ∷ d))
unfolding remove_newline
remove_newline_several a b d h =
    let (m, e) = rfind_after b'\n' b d in
    rw (find-skip b'\n' [] a (b ++ b'\n' ∷ d) h, rfind-past b'\n' a (b'\n' ∷ (b ++ b'\n' ∷ d)) e)
      (ground arith)

pub remove_newline-Unlined : (s : Str) → Unlined s (remove_newline s)
remove_newline-Unlined s = elim (cut b'\n' s) [
  | inl h ↦
      let e : remove_newline s ≡ s = unfold remove_newline in rw (find-Lacks b'\n' [] s h) in
      subst (Unlined s) (sym e) (without h)
  | inr (a, t, e, h) ↦
      subst (λ z. Unlined z (remove_newline z)) (sym e)
        (elim (cut b'\n' t) [
          | inl k ↦
              subst (Unlined (a ++ b'\n' ∷ t)) (sym (remove_newline_lone a t h k)) (single a t h k)
          | inr (b, d, q, k) ↦
              subst (λ z. Unlined (a ++ b'\n' ∷ z) (remove_newline (a ++ b'\n' ∷ z))) (sym q)
                (subst (Unlined (a ++ (b'\n' ∷ (b ++ b'\n' ∷ d))))
                  (sym (remove_newline_several a b d h)) (several a b d))
        ])
]
