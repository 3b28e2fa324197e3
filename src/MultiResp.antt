-- ===== src/MultiResp.antt =====
-- Class MultiResponseCommand (src/server/multirespcmd.hh and multirespcmd.cc), the server's side of
-- the daemon's socket. The socket and the files are the record `Peer`, at the time of the call.
pub mod Listing
pub mod Shown
use vyatta_rest.Prelude.{
  ℕ, zero, suc, ◌+◌, ◌-◌, Bool, true, false, not, ◌&&◌, ◌||◌, List, [], ◌∷◌, ◌++◌, Option, none,
  some, length, take, drop, ltb, leb, if◌then◌else◌, ◌==◌,
}
use vyatta_rest.Text.{c_str, Str, codes, empty}
use vyatta_rest.Text.Decimal.{strtoul}
use vyatta_rest.Rest.Keys.{chunker_resp_tok_file}
use vyatta_rest.Outcome.{Outcome, done, thrown, undefined, no_fuel, ◌>>=◌}
use vyatta_rest.StrProc.{str_proc, get}
use vyatta_rest.Chunker.Message.{
  Query, processes, details, next, delete, command_message, query_message,
}

-- A process as the server shows it. The constructor leaves `_start_time` and `_last_update` unset.
pub record ProcessData : Type 0 where
  pub username : Str
  pub start_time : ℕ
  pub last_update : ℕ
  pub id : Str
  pub command : Str

-- Whether socket() and connect() succeed; whether a write of a message succeeds; the C string that
-- the read behind a message leaves in the buffer, `none` for -1; what an unset number holds; the
-- content of a regular file, and whether fopen opens it; whether a file is there; whether errno is EINVAL.
pub record Peer : Type 0 where
  pub connects : Bool
  pub accepts : Str → Bool
  pub reply : Str → Option Str
  pub unset : ℕ
  pub content : Str → Option Str
  pub opens : Str → Bool
  pub is_there : Str → Bool
  pub errno_einval : Bool

-- `sprintf` of a message into `char buffer[1024]`, with its NUL byte.
abbrev fits_buffer : Str → Bool
fits_buffer message = ltb (length message) 1024

-- start(user, cmd) with the token that `Rest::generate_token` made: the id, and the message written.
unfoldable pub start : Peer → Str → Str → Str → Outcome (Str × List Str)
start peer tok user cmd =
    if ltb (length tok) 16
    then done ([], [])
    else let message = command_message tok cmd user in
      if not (fits_buffer message)
      then undefined
      else if peer.accepts message
      then done (tok, message ∷ [])
      else done ([], [])

abbrev pub unset_process : Peer → ProcessData
unset_process peer = record {
  username = [];
  start_time = peer.unset;
  last_update = peer.unset;
  id = [];
  command = [];
}

-- The fields of one piece of a reply.
unfoldable pub read_process : Peer → Str → Outcome ProcessData
read_process peer piece = do
  sp2 ← str_proc piece (codes "%3A")
  done (record {
    username = get sp2 3;
    start_time = strtoul (get sp2 0);
    last_update = peer.unset;
    id = get sp2 2;
    command = get sp2 1;
  })

unfoldable pub read_processes : Peer → List Str → Outcome (List ProcessData)
unfolding read_process
read_processes peer [] = done []
read_processes peer (piece ∷ pieces) = do
  pd ← read_process peer piece
  procs ← read_processes peer pieces
  done (pd ∷ procs)

-- The exchange of a query: nothing if a name is empty or a system call fails.
unfoldable pub exchange : Peer → Query → Str → Str → Outcome (Option Str)
exchange peer q tok user =
    let message = query_message q tok user in
    if not (fits_buffer message)
    then undefined
    else done (if peer.accepts message then peer.reply message else none)

first_process : Peer → List Str → Outcome ProcessData
first_process peer [] = done (unset_process peer)
first_process peer (piece ∷ pieces) = read_process peer piece

details_of : Peer → Option Str → Outcome ProcessData
details_of peer none = done (unset_process peer)
details_of peer (some out) = do coll ← str_proc out (codes "%2C"); first_process peer coll

-- get_process_details(user, id)
unfoldable pub get_process_details : Peer → Str → Str → Outcome ProcessData
unfolding details_of first_process exchange
get_process_details peer user id =
    if empty user || empty id
    then done (unset_process peer)
    else do out ← exchange peer details id user; details_of peer out

unfoldable pub processes_of : Peer → Option Str → Outcome (List ProcessData)
processes_of peer none = done []
processes_of peer (some out) = do coll ← str_proc out (codes "%2C"); read_processes peer coll

-- get_processes(user)
unfoldable pub get_processes : Peer → Str → Outcome (List ProcessData)
unfolding processes_of exchange
get_processes peer user =
    if empty user
    then done []
    else do out ← exchange peer processes (codes "123456") user; processes_of peer out

-- CHUNKER_READ_SIZE
abbrev pub read_size : ℕ
read_size = 98304

-- `strtol(s, NULL, 10)` of an offset: whether it is negative, and its magnitude.
unfoldable pub offset_sign : Str → Bool
offset_sign [] = false
offset_sign (c ∷ s) = c == b'-'

-- What is read of the data file from a position: `fread` returns less than it is asked for only at
-- the end, so the loop makes one round; a NUL byte ends what `string(buf)` takes.
abbrev pub chunk_at : Str → ℕ → Str
chunk_at content pos = c_str (take read_size (drop pos content))

-- No data file, or a negative position: "END" when the end file is there, and both files go.
unfoldable pub end_of : Peer → Str → Str × List Str
end_of peer token =
    let end_file = chunker_resp_tok_file ++ (token ++ codes "_end") in
    if peer.is_there end_file
    then (codes "END", end_file ∷ (chunker_resp_tok_file ++ token) ∷ [])
    else ([], [])

-- The response, and the files that are unlinked, by the offset field of the reply.
unfoldable pub chunk_of : Peer → Str → Str → Option Str → Str × List Str
unfolding end_of offset_sign
chunk_of peer token chunk none = end_of peer token
chunk_of peer token chunk (some content) =
    if offset_sign chunk
    then end_of peer token
    else if peer.opens (chunker_resp_tok_file ++ token)
    then (chunk_at content (strtoul chunk), [])
    else ([], [])

unfoldable pub positioned : Peer → Str → Str → Str × List Str
unfolding chunk_of
positioned peer token chunk =
    if empty chunk || (strtoul chunk == 0 && peer.errno_einval)
    then ([], [])
    else chunk_of peer token chunk (peer.content (chunker_resp_tok_file ++ token))

unfoldable pub chunk_reply : Peer → Str → Option Str → Outcome (Str × List Str)
unfolding positioned
chunk_reply peer token none = done ([], [])
chunk_reply peer token (some out) = do
  sp2 ← str_proc out (codes "%3A")
  done (positioned peer token (get sp2 4))

-- get_chunk(user, token)
unfoldable pub get_chunk : Peer → Str → Str → Outcome (Str × List Str)
unfolding chunk_reply exchange
get_chunk peer user token =
    if empty user || empty token
    then done ([], [])
    else do out ← exchange peer next token user; chunk_reply peer token out

-- kill(user, tok): the message written
unfoldable pub kill : Peer → Str → Str → Outcome (List Str)
kill peer user tok =
    if empty user || empty tok
    then done []
    else let message = query_message delete tok user in
      if not (fits_buffer message)
      then undefined
      else done (if peer.accepts message then message ∷ [] else [])
