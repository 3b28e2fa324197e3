-- ===== src/Chunker/Daemon.antt =====
-- The daemon's main program, src/server/chunker2_main.cc, and the socket side of class ChunkerManager
-- in src/server/chunker2_manager.cc (init, read, shutdown, run_cmd).
pub mod Reachable
use vyatta_rest.Prelude.{
  ℕ, ◌-◌, ◌^◌, ◌/◌, ◌%◌, Bool, true, false, not, ◌||◌, List, [], ◌∷◌, ◌++◌, Option, none, some, ltb,
  leb, ◌==◌, if◌then◌else◌, length, take,
}
use vyatta_rest.Text.{Str, c_str, codes, empty}
use vyatta_rest.Text.Decimal.{strtoul}
use vyatta_rest.Outcome.{Outcome, done, undefined, ◌>>=◌}
use vyatta_rest.Rest.Keys.{
  chunker_read_size, chunker_resp_tok_dir, chunker_resp_pid, chunker_socket,
}
use vyatta_rest.Chunker.Manager.{Manager, Host, Action, run_cmd, process, kill_all}

-- What getopt returns, with its argument; `usage` is -h and everything else.
pub data Flag : Type 0 where
  size pid_path process_pid_path timeout : Str → Flag
  debug usage : Flag

pub record Settings : Type 0 where
  pub pid_path : Str
  pub process_pid_path : Str
  pub chunk_size : ℕ
  pub kill_timeout : ℕ
  pub debug : Bool

abbrev pub defaults : Settings
defaults = record {
  pid_path = chunker_resp_pid;
  process_pid_path = [];
  chunk_size = chunker_read_size;
  kill_timeout = 300;
  debug = false;
}

-- `chunk_size` is a long, so an unsigned number of 2^63 and more is negative there.
unfoldable pub chunk_size_of : Str → ℕ
chunk_size_of optarg =
    let n = strtoul optarg in
    if leb (2 ^ 63) n || (ltb n 1024 || ltb 131072 n) then chunker_read_size else n

unfoldable pub kill_timeout_of : Str → ℕ
kill_timeout_of optarg = let n = strtoul optarg in if ltb 86400 n then 86400 else n

-- The loop over the options; `none` where the usage is shown and the program exits.
unfoldable pub parse_options : List Flag → Settings → Option Settings
unfolding chunk_size_of kill_timeout_of
parse_options [] s = some s
parse_options (size optarg ∷ flags) s =
    parse_options flags (record s { chunk_size = chunk_size_of optarg })
parse_options (pid_path optarg ∷ flags) s = parse_options flags (record s { pid_path = optarg })
parse_options (process_pid_path optarg ∷ flags) s =
    parse_options flags (record s { process_pid_path = optarg })
parse_options (timeout optarg ∷ flags) s =
    parse_options flags (record s { kill_timeout = kill_timeout_of optarg })
parse_options (debug ∷ flags) s = parse_options flags (record s { debug = true })
parse_options (usage ∷ flags) s = none

-- `ChunkerManager mgr(…)`
abbrev pub new_manager : Settings → Manager
new_manager s = record { procs = []; chunk_size = s.chunk_size }

-- What run_cmd makes of what system() returns: `none` for -1, else the wait status.
unfoldable pub run_cmd_result : Option ℕ → Bool
run_cmd_result none = false
run_cmd_result (some status) = if status % 128 == 0 then (status / 256) % 256 == 0 else false

abbrev pub clean_cmd : Str
clean_cmd = codes "rm -f " ++ (chunker_resp_tok_dir ++ codes "/* >/dev/null")

-- init(): the commands that it runs.
unfoldable pub init : List Action
init = run_cmd clean_cmd ∷ run_cmd (codes "rm -f " ++ chunker_socket) ∷ []

-- What a round of the loop meets: no connection, a read that fails, or the bytes that are sent.
pub data Arrival : Type 0 where
  nothing failed_read : Arrival
  bytes : Str → Arrival

-- read(): `buf[n] = '\0'` writes in front of the buffer when the read has failed.
unfoldable pub read : Host → Arrival → Manager → Outcome (Manager × List Action)
read host nothing m = done (m, [])
read host failed_read m = undefined
read host (bytes message) m = done (process host (c_str (take 1024 message)) m)

-- shutdown()
unfoldable pub shutdown : Host → Manager → Outcome (Manager × List Action)
shutdown host m =
    kill_all host m.procs m >>= λ (m', acts). done (m', acts ++ run_cmd clean_cmd ∷ [])

-- The loop of main, by what each round meets, until the signal to end it.
unfoldable pub run : List (Host × Arrival) → Manager → Outcome (Manager × List Action)
unfolding read
run [] m = done (m, [])
run ((host, arrival) ∷ rounds) m = do
  (m', now) ← read host arrival m
  (m'', later) ← run rounds m'
  done (m'', now ++ later)
