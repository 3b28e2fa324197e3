-- ===== src/Text/Map.antt =====
-- std::map with string keys: an association list in the order of the keys.
use vyatta_rest.Prelude.{
  Bool, true, false, List, [], ◌∷◌, Option, none, some, ltb, ◌==◌, if◌then◌else◌, ◌≡◌, refl, arith,
}
use vyatta_rest.Text.{Str, str_eq}
use vyatta_rest.Text.Find.{str_eq_iff}

-- operator< of std::string
unfoldable pub str_lt : Str → Str → Bool
str_lt [] [] = false
str_lt [] (y ∷ t) = true
str_lt (x ∷ s) [] = false
str_lt (x ∷ s) (y ∷ t) = if x == y then str_lt s t else ltb x y

abbrev pub StrMap {ℓ} : Type ℓ → Type ℓ
StrMap V = List (Str × V)

module _ {ℓ} {V : Type ℓ} where
  -- find(k)
  unfoldable pub lookup : Str → StrMap V → Option V
  lookup k [] = none
  lookup k ((j, v) ∷ m) = if str_eq j k then some v else lookup k m

  -- m[k] = v
  unfoldable pub assign : Str → V → StrMap V → StrMap V
  assign k v [] = (k, v) ∷ []
  assign k v ((j, w) ∷ m) =
      if str_eq j k
      then (k, v) ∷ m
      else if str_lt k j
      then (k, v) ∷ (j, w) ∷ m
      else (j, w) ∷ assign k v m

  -- erase(k)
  unfoldable pub erase : Str → StrMap V → StrMap V
  erase k [] = []
  erase k ((j, w) ∷ m) = let rest = erase k m in if str_eq j k then rest else (j, w) ∷ rest

  pub lookup-assign :
      (k j : Str) (v : V) (m : StrMap V)
      → lookup j (assign k v m) ≡ (if str_eq k j then some v else lookup j m)
  unfolding lookup assign
  lookup-assign k j v [] = refl
  lookup-assign k j v ((i, w) ∷ m) =
      ground (arith, str_eq_iff k j, str_eq_iff i k, str_eq_iff i j, lookup-assign k j v m)

  pub lookup-erase :
      (k j : Str) (m : StrMap V) → lookup j (erase k m) ≡ (if str_eq k j then none else lookup j m)
  unfolding lookup erase
  lookup-erase k j [] = ground arith
  lookup-erase k j ((i, w) ∷ m) =
      ground (arith, str_eq_iff k j, str_eq_iff i k, str_eq_iff i j, lookup-erase k j m)
