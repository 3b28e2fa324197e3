-- ===== src/Rest/Unique.antt =====
-- Replacement is a function of the source text (`Rest::mass_replace` of src/server/common.cc and
-- the loops of src/server/rl_str_proc.cc).
use vyatta_rest.Prelude.{ℕ, ◌≡◌, ◌≢◌, refl, sym, ap, false, [], ◌∷◌, ◌++◌, subst}
use vyatta_rest.Text.{Str, starts_with}
use vyatta_rest.Text.Find.{starts_with-append}
use vyatta_rest.Rest.Replace.{Replaces, end, keep, hit}

append_cancel : (v s t : Str) → v ++ s ≡ v ++ t → s ≡ t
append_cancel [] s t e = e
append_cancel (x ∷ v) s t e = append_cancel v s t (cc)

not_both : (v s : Str) (x : ℕ) (u : Str) → starts_with v (x ∷ u) ≡ false → v ++ s ≡ x ∷ u → ⊥
not_both v s x u n e = cc (n, ap (starts_with v) e, starts_with-append v s)

append_ne_nil : (v s : Str) → v ≢ [] → v ++ s ≢ []
append_ne_nil [] s h = absurd (h refl)
append_ne_nil (x ∷ v) s h = λ e. cc

pub Replaces-unique :
    {v r s t s' t' : Str} → v ≢ [] → Replaces v r s t → Replaces v r s' t' → s ≡ s' → t ≡ t'
Replaces-unique ne end end q = refl
Replaces-unique ne end (keep x n h) q = cc
Replaces-unique {v} ne end (hit {s} h) q = absurd (append_ne_nil v s ne (sym q))
Replaces-unique ne (keep x n h) end q = cc
Replaces-unique ne (keep x n h) (keep y m k) q = cc (Replaces-unique ne h k (cc))
Replaces-unique {v} ne (keep {s} x n h) (hit {s = s'} k) q = absurd (not_both v s' x s n (sym q))
Replaces-unique {v} ne (hit {s} h) end q = absurd (append_ne_nil v s ne q)
Replaces-unique {v} ne (hit {s} h) (keep {s = s'} x n k) q = absurd (not_both v s x s' n q)
Replaces-unique {v} ne (hit {s} h) (hit {s = s'} k) q =
    cc (Replaces-unique ne h k (append_cancel v s s' q))

-- Before a byte at which no occurrence starts, the byte is kept.
pub Replaces-keep :
    {v r s u : Str} (x : ℕ) (b : Str)
    → starts_with v (x ∷ b) ≡ false
    → Replaces v r s u
    → s ≡ x ∷ b
    → (t : Str) × (u ≡ x ∷ t) × Replaces v r b t
Replaces-keep x b n end q = absurd (cc)
Replaces-keep {v} {r} x b n (keep {s} {t} y m h) q =
    let e : s ≡ b = cc in (t, cc, subst (λ z. Replaces v r z t) e h)
Replaces-keep {v} x b n (hit {s} h) q = absurd (not_both v s x b n q)
