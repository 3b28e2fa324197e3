-- ===== src/Json.antt =====
-- Class JSON of src/server/http.hh and http.cc: arrays, values and nested objects by key, and
-- their text.
pub mod Members
use vyatta_rest.Prelude.{
  ℕ, zero, suc, ◌-◌, Bool, true, false, not, ◌||◌, ◌&&◌, List, [], ◌∷◌, ◌++◌, Option, none, some,
  if◌then◌else◌, length, take, ltb,
}
use vyatta_rest.Text.{Str, codes, empty, str_eq}
use vyatta_rest.Text.Decimal.{signed_decimal}
use vyatta_rest.Outcome.{Outcome, done, undefined}
use vyatta_rest.Text.Map.{StrMap, lookup, assign, str_lt}

-- `_array`, `_value` and `_coll`; `_coll` is a list in the order of the keys.
mutual
  pub data Json : Type 0 where
    json : StrMap (List Str) → StrMap Str → Hashes → Json

  pub data Hashes : Type 0 where
    no_hash : Hashes
    hash : Str → Json → Hashes → Hashes

abbrev pub new_json : Json
new_json = json [] [] no_hash

abbrev pub quote : Str → Str
quote s = codes "\"" ++ (s ++ codes "\"")

push : List Str → Option (List Str) → List Str
push c none = c
push c (some old) = old ++ c

-- add_array(key, val, quoted)
unfoldable pub add_array : Str → Str → Bool → Json → Json
unfolding push
add_array key val quoted (json a v c) =
    if empty key || empty val
    then json a v c
    else let val' = if quoted then val else quote val in
      json (assign key (push (val' ∷ []) (lookup key a)) a) v c

-- add_value(key, val)
unfoldable pub add_value : Str → Str → Json → Json
add_value key val (json a v c) =
    if empty key || empty val then json a v c else json a (assign key val v) c

-- add_value(key, unsigned long): sprintf of "%ld" into `char buf[20]`, with its NUL byte.
unfoldable pub add_number : Str → ℕ → Json → Outcome Json
add_number key val (json a v c) =
    if empty key
    then done (json a v c)
    else if ltb (length (signed_decimal val)) 20
    then done (json a (assign key (signed_decimal val) v) c)
    else undefined

elements : Option (List Str) → List Str
elements none = []
elements (some c) = c

-- get_elements(key)
unfoldable pub get_elements : Str → Json → List Str
unfolding elements
get_elements key (json a v c) = elements (lookup key a)

-- `_coll.insert(pair(key, JSON()))` keeps an entry that is there.
unfoldable pub insert_hash : Str → Hashes → Hashes
insert_hash key no_hash = hash key new_json no_hash
insert_hash key (hash k j rest) =
    if str_eq k key
    then hash k j rest
    else if str_lt key k
    then hash key new_json (hash k j rest)
    else hash k j (insert_hash key rest)

-- add_hash(key): the pointer that it hands out is the entry at `key`, which `get_hash` reads.
unfoldable pub add_hash : Str → Json → Bool × Json
unfolding insert_hash
add_hash key (json a v c) =
    if empty key then (false, json a v c) else (true, json a v (insert_hash key c))

find_hash : Str → Hashes → Option Json
find_hash key no_hash = none
find_hash key (hash k j rest) = if str_eq k key then some j else find_hash key rest

child : Str → Json → Option Json
child key (json a v c) = find_hash key c

-- get_hash(keys)
unfoldable pub get_hash : List Str → Json → Json
unfolding find_hash child
get_hash [] j = new_json
get_hash (key ∷ keys) j = elim (child key j) [
  | none ↦ new_json
  | some k ↦ elim keys [ [] ↦ k | x ∷ rest ↦ get_hash keys k ]
]

-- `rep = rep.substr(0, rep.length() - 1)`
abbrev pub chop : Str → Str
chop rep = take (length rep - 1) rep

unfoldable pub put_elements : Str → List Str → Str
put_elements rep [] = rep
put_elements rep (j ∷ js) = put_elements (rep ++ (j ++ codes ",")) js

abbrev put_array : Str → Str → List Str → Str
put_array rep key [] = rep
put_array rep key (j ∷ js) =
    chop (put_elements (rep ++ (quote key ++ codes ":[")) (j ∷ js)) ++ codes "]"

unfoldable pub put_arrays : Str → StrMap (List Str) → Str
unfolding put_elements
put_arrays rep [] = rep
put_arrays rep ((key, js) ∷ a) = put_arrays (put_array rep key js ++ codes ",") a

unfoldable pub put_values : Str → StrMap Str → Str
put_values rep [] = rep
put_values rep ((key, val) ∷ v) =
    put_values (rep ++ (codes "\"" ++ (key ++ (codes "\":\"" ++ (val ++ codes "\","))))) v

abbrev put_object : Str → StrMap (List Str) → StrMap Str → Str
put_object rep a v = chop (put_values (put_arrays (rep ++ codes "{") a) v) ++ codes "}"

-- `_array.empty() && _value.empty() && _coll.empty()`
abbrev is_empty : StrMap (List Str) → StrMap Str → Hashes → Bool
is_empty [] [] no_hash = true
is_empty _ _ _ = false

-- serialize(rep): what `rep` is afterwards
unfoldable mutual
  unfolding put_arrays put_values

  pub serialize : Json → Str → Str
  serialize (json a v c) rep =
      let text = put_hashes c (put_object rep a v) in if is_empty a v c then rep else text

  pub put_hashes : Hashes → Str → Str
  put_hashes no_hash rep = rep
  put_hashes (hash k j rest) rep =
      let tmp = serialize j [] in put_hashes rest (rep ++ (codes "," ++ tmp))
