-- ===== src/Rest/Modify.antt =====
-- The modify files of src/server/common.cc, one for each configuration session: they hold the user
-- and the description (create_conf_modify_file, read_conf_modify_file and
-- read_conf_modify_file_from_tag).
pub mod Found
pub mod Fresh
use vyatta_rest.Prelude.{
  ℕ, zero, suc, ◌+◌, ◌-◌, Bool, true, false, not, ◌&&◌, List, [], ◌∷◌, ◌++◌, Option, none, some,
  ◌==◌, ltb, if◌then◌else◌, length, take, drop,
}
use vyatta_rest.Text.{c_str, Str, codes, empty, str_eq, find}
use vyatta_rest.Rest.Keys.{chunker_read_size}

-- The directory CONFIG_TMP_DIR: whether opendir succeeds, the names that readdir yields, the content
-- of the modify file of an id (`none` where fopen for reading fails), and whether fopen for writing
-- and fputs succeed for an id.
pub record TmpDir : Type 0 where
  pub opens : Bool
  pub names : List Str
  pub content : Str → Option Str
  pub writable : Str → Bool
  pub puts : Str → Bool

-- What `fgets` leaves in a buffer of `n + 1` bytes: up to the newline or the size.
unfoldable pub fgets : ℕ → Str → Str
fgets zero s = []
fgets (suc n) [] = []
fgets (suc n) (x ∷ s) = let rest = fgets n s in if x == b'\n' then x ∷ [] else x ∷ rest

abbrev pub modify_name : Str → Str
modify_name id = codes ".vyattamodify_" ++ id

-- The directory once the modify file of `id` holds `text`. A new name is the last.
unfoldable pub put_file : Str → Str → TmpDir → TmpDir
put_file id text d = record d {
  names = elim (d.content id) [ none ↦ d.names ++ modify_name id ∷ [] | some old ↦ d.names ];
  content = λ j. if str_eq id j then some text else d.content j;
}

without : Str → List Str → List Str
without name [] = []
without name (x ∷ xs) = let rest = without name xs in if str_eq name x then rest else x ∷ rest

-- unlink of the modify file of `id`
unfoldable pub unlink_file : Str → TmpDir → TmpDir
unfolding without
unlink_file id d = record d {
  names = without (modify_name id) d.names;
  content = λ j. if str_eq id j then none else d.content j;
}

-- create_conf_modify_file(id, user, description)
unfoldable pub create_conf_modify_file : Str → Str → Str → TmpDir → Bool × TmpDir
unfolding put_file
create_conf_modify_file id user description d =
    if not (d.writable id)
    then (false, d)
    else if not (d.puts id)
    then (false, put_file id [] d)
    else (true, put_file id (user ++ (codes "/" ++ description)) d)

-- The line that was read, around its first '/'; `none` for one that has none.
unfoldable pub split_owner : Str → Option (Str × Str)
split_owner str = elim (find (codes "/") str) [
  | none ↦ none
  | some pos ↦ some (take pos str, drop (pos + 1) str)
]

unfoldable pub or_false : Str → Str → Option (Str × Str) → Bool × Str × Str
or_false user description none = (false, user, description)
or_false user description (some (u, t)) = (true, u, t)

-- The file, with what the reference arguments hold before the call. Nothing read leaves them.
unfoldable pub read_text : Str → Str → Str → Bool × Str × Str
unfolding or_false
read_text user description text =
    let line = fgets (chunker_read_size - 1) text in
    if empty line
    then (true, user, description)
    else or_false user description (split_owner (c_str line))

unfoldable pub opened : Str → Str → Option Str → Bool × Str × Str
unfolding read_text
opened user description none = (false, user, description)
opened user description (some text) = read_text user description text

-- read_conf_modify_file(id, user, description)
unfoldable pub read_conf_modify_file : TmpDir → Str → Str → Str → Bool × Str × Str
unfolding opened
read_conf_modify_file d id user description = opened user description (d.content id)

-- `f_tag.empty() == false && tag == f_tag && f_user == user`
unfoldable pub tagged : Str → Str → Bool × Str × Str → Bool
tagged tag user (ok, f_user, f_tag) = not (empty f_tag) && (str_eq tag f_tag && str_eq f_user user)

-- The loop over the directory: the id of the first name that matches.
unfoldable pub from_tag_loop : TmpDir → Str → Str → List Str → Option Str
unfolding tagged
from_tag_loop d tag user [] = none
from_tag_loop d tag user (name ∷ names) =
    let rest = from_tag_loop d tag user names in
    if ltb (length name) 22
    then rest
    else if tagged tag user (read_conf_modify_file d (drop 14 name) [] [])
    then some (drop 14 name)
    else rest

-- read_conf_modify_file_from_tag(tag, user, id): the id that is found, `none` for false.
unfoldable pub read_conf_modify_file_from_tag : TmpDir → Str → Str → Option Str
unfolding from_tag_loop
read_conf_modify_file_from_tag d tag user =
    if d.opens then from_tag_loop d tag user d.names else none
