-- ===== src/Outcome.antt =====
-- How a call of the server ends: with a value, with an uncaught C++ exception (std::out_of_range),
-- in undefined behaviour (a write past a buffer), or still running when the model's fuel is spent.
use vyatta_rest.Prelude.{ℕ, ◌≡◌, refl, Option, none, some}
use vyatta_rest.Text.{Str, substr?, substr_from?}

pub data Outcome {ℓ} (A : Type ℓ) : Type ℓ where
  done : A → Outcome A
  thrown : Outcome A
  undefined : Outcome A
  no_fuel : Outcome A

infixl 5 ◌>>=◌
abbrev pub ◌>>=◌ {ℓ κ} : {A : Type ℓ} {B : Type κ} → Outcome A → (A → Outcome B) → Outcome B
done a >>= f = f a
thrown >>= f = thrown
undefined >>= f = undefined
no_fuel >>= f = no_fuel

abbrev pub or_thrown {ℓ} : {A : Type ℓ} → Option A → Outcome A
or_thrown none = thrown
or_thrown (some a) = done a

-- `s.substr(pos, n)` and `s.substr(pos)`
abbrev pub substr : Str → ℕ → ℕ → Outcome Str
substr s pos n = or_thrown (substr? s pos n)

abbrev pub substr_from : Str → ℕ → Outcome Str
substr_from s pos = or_thrown (substr_from? s pos)

pub >>=-eq-done {ℓ κ} :
    {A : Type ℓ} {B : Type κ} (m : Outcome A) (f : A → Outcome B) {b : B}
    → (m >>= f) ≡ done b
    → (a : A) × (m ≡ done a) × (f a ≡ done b)
>>=-eq-done (done a) f h = (a, refl, h)
>>=-eq-done thrown f h = cc
>>=-eq-done undefined f h = cc
>>=-eq-done no_fuel f h = cc
