-- ===== src/Chunker/Processor.antt =====
-- Class ChunkerProcessor of src/server/chunker2_processor.cc: the forked processes of a command, its
-- arguments (tokenizeOpCmd, writer) and its output (reader).
pub mod Words
pub mod Segments
use vyatta_rest.Prelude.{
  ℕ, zero, suc, ◌+◌, ◌-◌, Bool, true, false, not, ◌&&◌, ◌||◌, List, [], ◌∷◌, ◌++◌, Option, none,
  some, length, take, drop, ltb, leb, ◌==◌, if◌then◌else◌,
}
use vyatta_rest.Text.{c_str, Str, codes, empty, str_eq, find_from, rfind}
use vyatta_rest.Outcome.{Outcome, done, no_fuel, ◌>>=◌, substr, substr_from}
use vyatta_rest.Json.{Json, new_json, add_array, serialize}
use vyatta_rest.Rest.Keys.{chunker_resp_tok_file}

-- `quote_open == strloc`
unfoldable pub opens_at : ℕ → Option ℕ → Bool
opens_at strloc none = false
opens_at strloc (some quote_open) = quote_open == strloc

-- `substr(quote_open + 1, quote_close - quote_open - 1)`, up to the end without a closing quote
unfoldable pub quoted_at : Str → ℕ → Option ℕ → Outcome Str
quoted_at cmd strloc none = substr_from cmd (strloc + 1)
quoted_at cmd strloc (some quote_close) = substr cmd (strloc + 1) (quote_close - strloc - 1)

-- `quote_close + 1`, where `npos + 1` is 0
unfoldable pub behind_quote : Option ℕ → ℕ
behind_quote none = 0
behind_quote (some quote_close) = quote_close + 1

unfoldable pub push_word : Str → List Str → List Str
push_word word arr = if empty word then arr else arr ++ c_str word ∷ []

-- The piece behind the last blank.
unfoldable pub last_word : Str → ℕ → List Str → Outcome (List Str)
unfolding push_word opens_at quoted_at
last_word cmd strloc arr =
    let word =
      if opens_at strloc (find_from (codes "'") cmd strloc)
      then quoted_at cmd strloc (find_from (codes "'") cmd (strloc + 1))
      else substr cmd strloc (length cmd - strloc + 1) in
    word >>= λ w. done (if str_eq w (codes "''") then arr else push_word w arr)

-- The loop of tokenizeOpCmd from `strloc` on.
unfoldable pub tokenize_loop : ℕ → Str → ℕ → List Str → Outcome (List Str)
unfolding last_word push_word opens_at quoted_at behind_quote
tokenize_loop zero cmd strloc arr = no_fuel
tokenize_loop (suc fuel) cmd strloc arr =
    let quote_close = find_from (codes "'") cmd (strloc + 1) in
    let after_quoted = quoted_at cmd strloc quote_close >>= λ word.
    tokenize_loop fuel cmd (behind_quote quote_close) (arr ++ c_str word ∷ []) in
    elim (find_from (codes " ") cmd strloc) [
      | none ↦ last_word cmd strloc arr
      | some seploc ↦
          let after_word = substr cmd strloc (seploc - strloc) >>= λ word.
          tokenize_loop fuel cmd (seploc + 1) (push_word word arr) in
          if opens_at strloc (find_from (codes "'") cmd strloc) then after_quoted else after_word
    ]

-- tokenizeOpCmd(opmodecmd, opcmdarr): each round but one behind an open quote goes on behind at
-- least one byte.
unfoldable pub tokenize_op_cmd : Str → Outcome (List Str)
unfolding tokenize_loop
tokenize_op_cmd cmd = tokenize_loop (suc (length cmd)) cmd 0 []

add_args : List Str → Json → Json
add_args [] j = j
add_args (x ∷ xs) j = add_args xs (add_array (codes "args") x false j)

-- The environment that writer gives the command.
unfoldable pub environment : Str → Str → Outcome (List Str)
unfolding tokenize_op_cmd add_args
environment user cmd = tokenize_op_cmd cmd >>= λ args. done (
    (codes "EFFECTIVE_USER=" ++ user)
    ∷ codes "VYATTA_PROCESS_CLIENT=gui2_rest"
    ∷ (codes "OPC_ARGS=" ++ serialize (add_args args new_json) [])
    ∷ [])

-- The pid file that writer leaves for a token, if a path for it was given.
unfoldable pub pid_file : Str → Str → Option Str
pid_file pid_path token = if empty pid_path then none else some (pid_path ++ (codes "/" ++ token))

-- The output of a command: the file of a token and its end file; whether fopen succeeds for each.
pub record Output : Type 0 where
  pub file : Option Str
  pub end_file : Option Str
  pub opens_file : Bool
  pub opens_end : Bool

unfoldable pub append_file : Str → Output → Output
append_file text o =
    if o.opens_file
    then record o { file = some (elim o.file [ none ↦ text | some old ↦ old ++ text ]) }
    else o

-- process_chunk(str, token): the whole text is written, and nothing is left over.
unfoldable pub process_chunk : Str → Output → Str × Output
unfolding append_file
process_chunk str o = ([], append_file str o)

-- process_chunk_end(str, token): what is before the last newline is written, or all of it.
unfoldable pub process_chunk_end : Str → Output → Output
unfolding append_file
process_chunk_end str o =
    let o' = append_file (elim (rfind b'\n' str) [ none ↦ str | some pos ↦ take pos str ]) o in
    if o'.opens_end then record o' { end_file = some (codes "end") } else o'

-- The loop of reader: what each read from the pipe gives, of which `string(buf)` takes what stands
-- before the first NUL.
unfoldable pub read_chunks : Str → List Str → Output → Output
unfolding process_chunk process_chunk_end
read_chunks tmp [] o = process_chunk_end tmp o
read_chunks tmp (buf ∷ bufs) o =
    let (tmp', o') = process_chunk (tmp ++ c_str buf) o in read_chunks tmp' bufs o'

-- reader(token, cp)
unfoldable pub reader : List Str → Output → Output
unfolding read_chunks
reader bufs o = read_chunks [] bufs o

-- What the process that start_new forks asks of the system. `is_child` is the second fork.
pub record ChildHost : Type 0 where
  pub makes_pipe : Bool
  pub account : Str → Option (ℕ × ℕ)
  pub is_child : Bool
  pub set_login_uid : ℕ → Bool
  pub group_list : Str → ℕ → Option (List ℕ)
  pub set_groups : List ℕ → Bool
  pub set_gid : ℕ → Bool
  pub set_uid : ℕ → Bool

-- A process exits, runs the command as the user with these ids and groups and exits, reads its
-- output and exits, or returns into the loop of the daemon that it was forked from.
pub data Fate : Type 0 where
  exits reads returns : Fate
  writes : ℕ → ℕ → List ℕ → Fate

with_groups : ChildHost → ℕ × ℕ → Option (List ℕ) → Fate
with_groups host (uid, gid) none = returns
with_groups host (uid, gid) (some groups) =
    if not (host.set_groups groups)
    then returns
    else if not (host.set_gid gid)
    then returns
    else if not (host.set_uid uid)
    then returns
    else writes uid gid groups

with_account : ChildHost → Str → Option (ℕ × ℕ) → Fate
unfolding with_groups
with_account host user none = returns
with_account host user (some (uid, gid)) =
    if not host.is_child
    then reads
    else if not (host.set_login_uid uid)
    then exits
    else with_groups host (uid, gid) (host.group_list user gid)

-- start_new(token, cmd, user) as the forked process goes through it
unfoldable pub start_new_child : ChildHost → Str → Fate
unfolding with_account
start_new_child host user =
    if not host.makes_pipe then exits else with_account host user (host.account user)

abbrev is_blank : ℕ → Bool
is_blank c = c == b' ' || (c == b'\t' || c == b'\n')

unfoldable pub skip_blanks : Str → Str
skip_blanks [] = []
skip_blanks (c ∷ s) = if is_blank c then skip_blanks s else c ∷ s

-- The argument in front, and the line behind it.
unfoldable pub word_and_rest : Str → Str × Str
word_and_rest [] = ([], [])
word_and_rest (c ∷ s) =
    if is_blank c then ([], c ∷ s) else (c ∷ (word_and_rest s).0, (word_and_rest s).1)

-- parse(line, argv): a line that ends in blanks has an empty last argument.
unfoldable pub parse : ℕ → Str → Outcome (List Str)
unfolding skip_blanks word_and_rest
parse zero line = no_fuel
parse (suc fuel) [] = done []
parse (suc fuel) (c ∷ s) =
    let (word, rest) = word_and_rest (skip_blanks (c ∷ s)) in
    parse fuel rest >>= λ argv. done (word ∷ argv)
