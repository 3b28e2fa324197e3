-- ===== src/Chunker/Manager.antt =====
-- Class ChunkerManager (src/server/chunker2_manager.hh and chunker2_manager.cc): its process table
-- and the handling of one message. What the handler asks of the system is the record `Host`, at
-- the time of the call; what it does to the outside is a list of actions.
pub mod Requests
pub mod Listing
pub mod Progress
pub mod Kill
use vyatta_rest.Prelude.{
  ℕ, zero, suc, ◌+◌, ◌-◌, ◌%◌, ◌^◌, Bool, true, false, not, ◌&&◌, ◌||◌, List, [], ◌∷◌, ◌++◌, Option,
  none, some, length, ltb, leb, if◌then◌else◌,
}
use vyatta_rest.Text.{Str, c_str, codes, contains, empty, str_eq}
use vyatta_rest.Text.Decimal.{signed_decimal, decimal}
use vyatta_rest.Text.Map.{StrMap, lookup, assign, erase}
use vyatta_rest.Outcome.{Outcome, done, undefined, ◌>>=◌}
use vyatta_rest.Rest.Keys.{chunker_resp_tok_file}
use vyatta_rest.Chunker.Message.{message_token, message_statement, message_user}

pub data ProcStatus : Type 0 where
  k_none k_running k_dead : ProcStatus

pub record ProcessData : Type 0 where
  pub start_time : ℕ
  pub last_update : ℕ
  pub command : Str
  pub token : Str
  pub user : Str
  pub read_offset : ℕ
  pub status : ProcStatus

pub record Manager : Type 0 where
  pub procs : StrMap ProcessData
  pub chunk_size : ℕ

-- gettimeofday; lstat, the size of a file that is there; the bytes that fread takes from a pid
-- file, and those that the stack buffer holds behind them up to its end; and whether the process's
-- stat file is there at an attempt.
pub record Host : Type 0 where
  pub now : ℕ
  pub size_of : Str → Option ℕ
  pub pid_file : Str → Option Str
  pub buffer_rest : Str
  pub stat_exists : ℕ → Str → Bool

pub data Action : Type 0 where
  start : Str → Str → Str → Action
  answer : Str → Action
  unlink : Str → Action
  run_cmd : Str → Action

-- The fields of a process that every response shows.
unfoldable pub describe : ProcessData → Str
unfolding signed_decimal
describe p =
    signed_decimal p.start_time
    ++ (codes "%3A" ++ (p.command ++ (codes "%3A" ++ (p.token ++ (codes "%3A" ++ p.user)))))

-- The loop of `<process>` (every token) and of `<details>` (one token).
unfoldable pub list_processes : (ProcessData → Bool) → StrMap ProcessData → Str
unfolding describe
list_processes shown [] = []
list_processes shown ((k, p) ∷ rest) =
    (if shown p
      then describe p ++ (codes "%3A" ++ (signed_decimal p.read_offset ++ codes "%2C"))
      else [])
    ++ list_processes shown rest

-- ChunkerProcessor::start_new as its parent process sees it
unfoldable pub start_new : Str → Str → Str → Bool
start_new token cmd user = not (empty cmd || empty token || empty user)

insert_new : Str → ProcessData → Option ProcessData → StrMap ProcessData → StrMap ProcessData
insert_new key p none procs = assign key p procs
insert_new key p (some old) procs = procs

-- `<command>`: a new process, unless the token is known and the statement is empty.
unfoldable pub on_command :
    Host → Str → Str → Str → Option ProcessData → Manager → Manager × List Action
unfolding start_new insert_new
on_command host token statement user known m =
    let fresh : ProcessData = record {
      start_time = host.now;
      last_update = host.now;
      command = statement;
      token = token;
      user = user;
      read_offset = 0;
      status = k_running;
    } in
    let started : Manager × List Action = (
      record m { procs = insert_new token fresh known m.procs },
      start token statement user ∷ [],
    ) in
    let launched : Manager × List Action =
      if start_new token statement user then started else (m, []) in
    elim known [
      | none ↦ launched
      | some p ↦
          if empty statement
          then (record m { procs = assign token (record p { last_update = host.now }) m.procs }, [])
          else launched
    ]

is_dead : ProcStatus → Bool
is_dead k_dead = true
is_dead _ = false

-- The read offset and the status behind an answer to `<next>`, by the size of the chunk file and
-- whether the end file is there. `(unsigned)s.st_size` keeps 32 bits, and the sum wraps.
unfoldable pub advance : ℕ → Option ℕ → Bool → ProcessData → ProcessData
advance chunk_size none ended p = p
advance chunk_size (some size) ended p =
    if ltb ((p.read_offset + chunk_size) % 2 ^ 64) (size % 2 ^ 32)
    then record p { read_offset = (p.read_offset + chunk_size) % 2 ^ 64 }
    else record p { read_offset = size; status = if ended then k_dead else p.status }

-- A terminated process that has been read to its end shows the offset -1.
unfoldable pub close_dead : ProcessData → ProcessData
unfolding is_dead
close_dead p = if is_dead p.status then record p { read_offset = 2 ^ 64 - 1 } else p

unfoldable pub is_there : Option ℕ → Bool
is_there none = false
is_there (some n) = true

abbrev pub chunk_file : Str → Str
chunk_file token = chunker_resp_tok_file ++ token

abbrev pub end_file : Str → Str
end_file token = chunker_resp_tok_file ++ (token ++ codes "_end")

-- `<next>`
unfoldable pub on_next : Host → Str → Str → Option ProcessData → Manager → Manager × List Action
unfolding is_there
on_next host token user none m = (m, answer (codes "  ") ∷ [])
on_next host token user (some p) m =
    if str_eq user p.user
    then (let shown = close_dead p in
        let after =
          advance m.chunk_size (host.size_of (chunk_file token))
            (is_there (host.size_of (end_file token))) shown in
        (
          record m { procs = assign token after m.procs },
          answer (describe p ++ (codes "%3A" ++ (signed_decimal shown.read_offset ++ codes "\n")))
              ∷ [],
        ))
    else (m, answer [] ∷ [])

-- The attempts left with the "little hammer", and then the big one.
unfoldable pub kill_loop : ℕ → Host → Str → List Action
kill_loop zero host pid = run_cmd (codes "kill -9 -" ++ pid) ∷ []
kill_loop (suc ct) host pid =
    let again = kill_loop ct host pid in
    run_cmd (codes "kill -15 -" ++ pid)
    ∷ (if host.stat_exists ct (codes "/proc/" ++ (pid ++ codes "/stat")) then again else [])

-- kill_process(key), by the content of its pid file
unfoldable pub kill_known : Host → Str → Option Str → Manager → Manager × List Action
unfolding kill_loop c_str
kill_known host key none m = (m, [])
kill_known host key (some []) m = (m, [])
kill_known host key (some (c ∷ content)) m = (
  record m { procs = erase key m.procs },
  unlink (codes "/tmp/" ++ key) ∷ kill_loop 3 host (c_str ((c ∷ content) ++ host.buffer_rest)),
)

unfoldable pub kill_process : Host → Str → Manager → Manager × List Action
unfolding kill_known
kill_process host key m = kill_known host key (host.pid_file (codes "/tmp/" ++ key)) m

abbrev pub of_user : Str → ProcessData → Bool
of_user user p = str_eq p.user user

-- The chain of tests on the kind of a message that has a token.
unfoldable pub dispatch : Host → Str → Str → Manager → Manager × List Action
unfolding on_command on_next kill_process list_processes
dispatch host command token m =
    let statement = message_statement command in
    let user = message_user command in
    if contains (codes "<command>") command
    then on_command host token statement user (lookup token m.procs) m
    else if contains (codes "<process>") command
    then (m, answer (list_processes (of_user user) m.procs) ∷ [])
    else if contains (codes "<details>") command
    then (m, answer (list_processes (λ p. of_user user p && str_eq token p.token) m.procs) ∷ [])
    else if contains (codes "<next>") command
    then on_next host token user (lookup token m.procs) m
    else if contains (codes "<delete>") command
    then kill_process host token m
    else (m, [])

-- process(sock, buf)
unfoldable pub process : Host → Str → Manager → Manager × List Action
unfolding dispatch
process host command m = elim (message_token command) [
  | none ↦ (m, [])
  | some token ↦ dispatch host command token m
]

-- The `++iter` behind a kill_process, where `rest` is the loop from the next entry on: undefined
-- where the entry that the iterator stands on is no longer in the map.
unfoldable pub step_from :
    Str
    → (Manager → Outcome (Manager × List Action))
    → Manager × List Action
    → Outcome (Manager × List Action)
step_from key rest (m, acts) = elim (lookup key m.procs) [
  | none ↦ undefined
  | some p ↦ do (m', more) ← rest m; done (m', acts ++ more)
]

-- kill_all() from an iterator with these entries ahead.
unfoldable pub kill_all : Host → StrMap ProcessData → Manager → Outcome (Manager × List Action)
unfolding step_from kill_process
kill_all host [] m = done (m, [])
kill_all host ((key, p) ∷ rest) m =
    let skipped = kill_all host rest m in
    let stepped = step_from key (kill_all host rest) (kill_process host key m) in
    if empty key then skipped else stepped
