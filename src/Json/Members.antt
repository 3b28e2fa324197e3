-- ===== src/Json/Members.antt =====
-- The text of a JSON object (src/server/http.cc, JSON::serialize) against its list of members.
use vyatta_rest.Prelude.{
  ℕ, ◌≡◌, ◌≢◌, refl, sym, ap, ◌∙◌, Bool, List, [], ◌∷◌, ◌++◌, Option, none, some, map, take, arith,
  length-append, take-length, append_assoc, append-nil, if◌then◌else◌, Bool-cases, inl, inr,
}
use vyatta_rest.Text.{Str, codes, str_eq}
use vyatta_rest.Text.Map.{StrMap, lookup, assign, str_lt}
use vyatta_rest.Json.{
  Json, json, no_hash, quote, chop, put_elements, put_arrays, put_values, serialize, add_array,
  push,
}

-- Texts with a comma between them, and with a comma behind each.
unfoldable pub commas : List Str → Str
commas [] = []
commas (x ∷ []) = x
commas (x ∷ y ∷ xs) = x ++ (codes "," ++ commas (y ∷ xs))

abbrev ended : List Str → Str
ended [] = []
ended (x ∷ xs) = x ++ (codes "," ++ ended xs)

abbrev pub array_member : Str × List Str → Str
array_member (key, js) = quote key ++ (codes ":[" ++ (commas js ++ codes "]"))

abbrev pub value_member : Str × Str → Str
value_member (key, val) = quote key ++ (codes ":" ++ quote val)

-- No array is empty: `add_array` makes none that is.
abbrev pub NonEmpty : StrMap (List Str) → Type 0
NonEmpty [] = Unit
NonEmpty ((key, []) ∷ a) = ⊥
NonEmpty ((key, j ∷ js) ∷ a) = NonEmpty a

chop-append : (s : Str) (c : ℕ) → chop (s ++ c ∷ []) ≡ s
chop-append s c =
    rw (length-append s (c ∷ []))
      (ap (λ n. take n (s ++ c ∷ [])) (omega arith) ∙ take-length s (c ∷ []))

ended-commas : (x : Str) (xs : List Str) → ended (x ∷ xs) ≡ commas (x ∷ xs) ++ codes ","
unfolding commas
ended-commas x [] = refl
ended-commas x (y ∷ xs) = rw (ended-commas y xs) (simp append_assoc)

ended-append : (xs ys : List Str) → ended (xs ++ ys) ≡ ended xs ++ ended ys
ended-append [] ys = refl
ended-append (x ∷ xs) ys = rw (ended-append xs ys) (simp append_assoc)

put_elements-ended : (js : List Str) (rep : Str) → put_elements rep js ≡ rep ++ ended js
unfolding put_elements
put_elements-ended [] rep = sym (append-nil rep)
put_elements-ended (j ∷ js) rep =
    put_elements-ended js (rep ++ (j ++ codes ",")) ∙ simp append_assoc

put_arrays-ended :
    (a : StrMap (List Str)) (rep : Str)
    → NonEmpty a
    → put_arrays rep a ≡ rep ++ ended (map array_member a)
unfolding put_arrays
put_arrays-ended [] rep h = sym (append-nil rep)
put_arrays-ended ((key, []) ∷ a) rep h = absurd h
put_arrays-ended ((key, j ∷ js) ∷ a) rep h =
    put_arrays-ended a _ h
    ∙ rw (put_elements-ended (j ∷ js) (rep ++ (quote key ++ codes ":[")), ended-commas j js)
        (rw
          (
            ← append_assoc (rep ++ (quote key ++ codes ":[")) (commas (j ∷ js)) (codes ","),
            chop-append (rep ++ (quote key ++ codes ":[") ++ commas (j ∷ js)) b',',
          )
          (simp append_assoc))

put_values-ended :
    (v : StrMap Str) (rep : Str) → put_values rep v ≡ rep ++ ended (map value_member v)
unfolding put_values
put_values-ended [] rep = sym (append-nil rep)
put_values-ended ((key, val) ∷ v) rep = put_values-ended v _ ∙ simp append_assoc

abbrev pub members : StrMap (List Str) → StrMap Str → List Str
members a v = map array_member a ++ map value_member v

object_text :
    (a : StrMap (List Str)) (v : StrMap Str) (rep : Str)
    → NonEmpty a
    → (x : Str) (xs : List Str) → members a v ≡ x ∷ xs
    → chop (put_values (put_arrays (rep ++ codes "{") a) v) ++ codes "}"
      ≡ rep ++ (codes "{" ++ (commas (members a v) ++ codes "}"))
object_text a v rep h x xs e =
    rw
      (
        put_values-ended v (put_arrays (rep ++ codes "{") a),
        put_arrays-ended a (rep ++ codes "{") h,
      )
      (rw
        (
          append_assoc (rep ++ codes "{") (ended (map array_member a)) (ended (map value_member v)),
          ← ended-append (map array_member a) (map value_member v),
          e,
          ended-commas x xs,
        )
        (rw
          (
            ← append_assoc (rep ++ codes "{") (commas (x ∷ xs)) (codes ","),
            chop-append (rep ++ codes "{" ++ commas (x ∷ xs)) b',',
          )
          (simp append_assoc)))

-- An object that holds an array or a value, no empty array and no nested object, is written as
-- its members between braces, a comma between each two and none at the end: arrays first, then
-- values.
pub serialize-members :
    (a : StrMap (List Str)) (v : StrMap Str) (rep : Str)
    → NonEmpty a
    → members a v ≢ []
    → serialize (json a v no_hash) rep ≡ rep ++ (codes "{" ++ (commas (members a v) ++ codes "}"))
unfolding serialize
serialize-members [] [] rep h ne = absurd (ne refl)
serialize-members [] (kv ∷ v) rep h ne = object_text [] (kv ∷ v) rep h _ _ refl
serialize-members (ka ∷ a) v rep h ne = object_text (ka ∷ a) v rep h _ _ refl

NonEmpty-assign :
    (key : Str) (j : Str) (js : List Str) (a : StrMap (List Str))
    → NonEmpty a
    → NonEmpty (assign key (j ∷ js) a)
unfolding assign
NonEmpty-assign key j js [] h = tt
NonEmpty-assign key j js ((k, []) ∷ a) h = absurd h
NonEmpty-assign key j js ((k, x ∷ xs) ∷ a) h = elim (Bool-cases (str_eq k key)) [
  | inl e ↦ rw e h
  | inr e ↦ rw e (elim (Bool-cases (str_lt key k)) [
    | inl l ↦ rw l h
    | inr l ↦ rw l (NonEmpty-assign key j js a h)
  ])
]

NonEmpty-push :
    (key e : Str) (a : StrMap (List Str))
    → NonEmpty a
    → (o : Option (List Str)) → NonEmpty (assign key (push (e ∷ []) o) a)
unfolding push
NonEmpty-push key e a h none = NonEmpty-assign key e [] a h
NonEmpty-push key e a h (some []) = NonEmpty-assign key e [] a h
NonEmpty-push key e a h (some (x ∷ xs)) = NonEmpty-assign key x (xs ++ e ∷ []) a h

abbrev pub IsTidy : Json → Type 0
IsTidy (json a v c) = NonEmpty a

-- No operation makes an empty array.
pub IsTidy-add_array :
    (key val : Str) (q : Bool) (j : Json) → IsTidy j → IsTidy (add_array key val q j)
unfolding add_array
IsTidy-add_array [] val q (json a v c) h = h
IsTidy-add_array (x ∷ key) [] q (json a v c) h = h
IsTidy-add_array (x ∷ key) (y ∷ val) q (json a v c) h =
    NonEmpty-push (x ∷ key) (if q then y ∷ val else quote (y ∷ val)) a h (lookup (x ∷ key) a)
