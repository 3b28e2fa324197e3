-- ===== src/Configuration/Entries.antt =====
-- The entries of a template in src/server/configuration.cc: `split`, the values of the keys `type`,
-- `tag`, `multi`, `val_help`, `help` and `syntax`, and the sets that they fill.
use vyatta_rest.Prelude.{
  ℕ, ◌+◌, ◌-◌, Bool, true, false, ◌&&◌, ◌||◌, List, [], ◌∷◌, ◌++◌, Option, none, some, ◌==◌, ltb,
  if◌then◌else◌, length, take, drop,
}
use vyatta_rest.Text.{Str, codes, empty, str_eq, find, contains, rfind}
use vyatta_rest.Text.Decimal.{strtoul}
use vyatta_rest.Text.Map.{str_lt}
use vyatta_rest.Outcome.{Outcome, done, ◌>>=◌}
use vyatta_rest.StrProc.{str_proc, get, get_range}
use vyatta_rest.Rest.{mass_replace, trim}
use vyatta_rest.Rest.Keys as Keys
use vyatta_rest.Configuration.{TemplateParams}

-- insert of std::set
unfoldable pub set_insert : Str → List Str → List Str
set_insert x [] = x ∷ []
set_insert x (y ∷ ys) =
    if str_eq x y then y ∷ ys else if str_lt x y then x ∷ y ∷ ys else y ∷ set_insert x ys

unfoldable pub set_insert_all : List Str → List Str → List Str
unfolding set_insert
set_insert_all [] s = s
set_insert_all (x ∷ xs) s = set_insert_all xs (set_insert x s)

-- An entry is cut at its first '='; `none` where it has none.
unfoldable pub key_and_value : Str → Option (Str × Str)
key_and_value entry = elim (find (codes "=") entry) [
  | none ↦ none
  | some pos ↦ some (take pos entry, drop (pos + 1) entry)
]

-- split(s, delim): getline reads no item behind a last delimiter.
unfoldable pub split_onto : Str → ℕ → Str → List Str
split_onto item delim [] = if empty item then [] else item ∷ []
split_onto item delim (c ∷ s) =
    let cut = split_onto [] delim s in
    let go_on = split_onto (item ++ c ∷ []) delim s in if c == delim then item ∷ cut else go_on

unfoldable pub split : Str → ℕ → List Str
unfolding split_onto
split s delim = split_onto [] delim s

-- The type that a name holds, in the order of the tests; `none` for an unknown one.
unfoldable pub type_of : Str → Option Keys.NodeType
type_of e =
    if contains (codes "txt") e
    then some Keys.text
    else if contains (codes "ipv4net") e
    then some Keys.ipv4net
    else if contains (codes "ipv4") e
    then some Keys.ipv4
    else if contains (codes "ipv6net") e
    then some Keys.ipv6net
    else if contains (codes "ipv6") e
    then some Keys.ipv6
    else if contains (codes "u32") e
    then some Keys.u32
    else if contains (codes "bool") e
    then some Keys.bool
    else if contains (codes "macaddr") e
    then some Keys.macaddr
    else none

abbrev or_else : Option Keys.NodeType → Keys.NodeType → Keys.NodeType
or_else none old = old
or_else (some new) old = new

-- "type"
unfoldable pub set_types : Str → TemplateParams → Outcome TemplateParams
unfolding type_of
set_types value p = str_proc value (codes ",") >>= λ names. done (record p {
  type1 = or_else (type_of (get names 0)) p.type1;
  type2 = if empty (get names 1) then p.type2 else or_else (type_of (get names 1)) p.type2;
})

-- "tag" and "multi": the limit behind a ':'
unfoldable pub set_limit : Str → TemplateParams → Outcome TemplateParams
set_limit value p = str_proc value (codes ":") >>= λ fields. done (record p {
  multi_limit = if empty (get fields 1) then p.multi_limit else strtoul (get fields 1);
})

-- "help", of a configuration and of an operational template
unfoldable pub set_help : Str → TemplateParams → Outcome TemplateParams
set_help value p = do
  line ← mass_replace value (codes "\n") []
  text ← mass_replace line (codes "\"") (codes "'")
  done (record p { mandatory = p.mandatory || contains (codes "[REQUIRED]") value; help = text })

-- "val_help"
unfoldable pub set_val_help : Str → TemplateParams → Outcome TemplateParams
unfolding split set_insert_all
set_val_help value p = mass_replace value (codes "\t") (codes "\\t") >>= λ text.
    done (record p { val_help = set_insert_all (split text b'\n') p.val_help })

-- `find_last_of('"')` is a position, since the text begins with a quote.
unquoted_to : Str → Option ℕ → Str
unquoted_to s none = s
unquoted_to s (some p) = if p == 0 then s else take (p - 1) (drop 1 s)

unfoldable pub unquoted : Str → Str
unfolding unquoted_to
unquoted [] = []
unquoted (c ∷ s) = if c == b'"' then unquoted_to (c ∷ s) (rfind b'"' (c ∷ s)) else c ∷ s

-- "chop off every past the semi-colon"
chopped : Str → Option ℕ → Str
chopped s none = s
chopped s (some pos) = take pos s

ends : Option ℕ → Bool
ends none = false
ends (some pos) = true

add_value : Str → List Str → List Str
add_value tmp s = if empty tmp then s else set_insert tmp s

-- The values of "syntax", up to the one with a ';'.
unfoldable pub add_syntax : List Str → List Str → List Str
unfolding chopped ends add_value unquoted set_insert
add_syntax [] s = s
add_syntax (x ∷ xs) s =
    let added = add_value (unquoted (trim (chopped x (find (codes ";") x)))) s in
    let rest = add_syntax xs added in if ends (find (codes ";") x) then added else rest

-- "syntax": the values behind "in"
unfoldable pub set_syntax : Str → TemplateParams → Outcome TemplateParams
unfolding add_syntax
set_syntax value p = str_proc value (codes " ") >>= λ words.
    let values = str_proc (get_range words 3 (length words)) (codes ",") >>= λ coll.
    done (record p { enum = add_syntax coll p.enum }) in
    if ltb 3 (length words) && str_eq (get words 2) (codes "in") then values else done p
