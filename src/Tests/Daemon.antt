-- ===== src/Tests/Daemon.antt =====
-- Inputs for the results on the daemon and on what the server asks of it.
use vyatta_rest.Prelude.{
  ℕ, ◌*◌, ◌≡◌, ◌≤◌, refl, ap, true, false, List, [], ◌∷◌, ◌++◌, none, some, map, All, zero, arith,
}
use vyatta_rest.Text.{Str, codes, c_str, str_eq}
use vyatta_rest.Text.Decimal.{decimal}
use vyatta_rest.Text.Map.{lookup, erase}
use vyatta_rest.Outcome.{done, undefined}
use vyatta_rest.Chunker.Message.{processes, details, next, delete, query_message}
use vyatta_rest.Chunker.Message.Wire.{Plain}
use vyatta_rest.Chunker.Manager.{
  k_running, ProcessData, Manager, Host, answer, unlink, run_cmd, of_user, list_processes, process,
  Action, step_from, kill_process, kill_all, is_there,
}
use vyatta_rest.Chunker.Manager.Requests.{command, query, encode, handle, process-encode}
use vyatta_rest.Chunker.Manager.Listing.{chosen, answers_own, next_foreign}
use vyatta_rest.Chunker.Manager.Progress.{shows, after_next, next_covers}
use vyatta_rest.Chunker.Manager.Kill.{pid_text, pid_text-ne-nil, kill_process_once, delete_any_user}
use vyatta_rest.MultiResp as Server
use vyatta_rest.MultiResp.{Peer, get_processes}
use vyatta_rest.MultiResp.Listing.{IsListable, shown_process, processes_of-list_processes}
use vyatta_rest.MultiResp.Shown.{get_processes-process}
use vyatta_rest.Tests.Words.{Lacks-has, word}

abbrev pub token : Str
token = codes "0123456789abcdef"

abbrev listing : ProcessData
listing = record {
  start_time = 5;
  last_update = 6;
  command = codes "ls";
  token = token;
  user = codes "vyatta";
  read_offset = 0;
  status = k_running;
}

abbrev manager : Manager
manager = record { procs = (token, listing) ∷ []; chunk_size = 4 }

-- The same, with another user's process.
abbrev busier : Manager
busier = record manager {
  procs = (token, listing) ∷ (codes "fedcba9876543210", record listing { user = codes "eve" }) ∷ [];
}

-- A chunk file of ten bytes, and an end file.
abbrev pub host : Host
host = record {
  now = 7;
  size_of = λ path. some 10;
  pid_file = λ path. some (pid_text 41);
  buffer_rest = zero ∷ [];
  stat_exists = λ ct path. false;
}

pub Plain-token : Plain token
Plain-token = (Lacks-has b'<' token refl, omega arith)

pub Plain-user : Plain (codes "vyatta")
Plain-user = (Lacks-has b'<' (codes "vyatta") refl, omega arith)

Plain-other : Plain (codes "eve")
Plain-other = (Lacks-has b'<' (codes "eve") refl, omega arith)

pub Plain-command : Plain (codes "ls")
Plain-command = (Lacks-has b'<' (codes "ls") refl, omega arith)

process-encode_example :
    process host (encode (command token (codes "ls") (codes "vyatta"))) manager
    ≡ handle host (command token (codes "ls") (codes "vyatta")) manager
process-encode_example =
    process-encode host (command token (codes "ls") (codes "vyatta")) manager
      (Plain-token, Plain-command, Plain-user)

next_covers_example :
    ((j : ℕ)
      → j ≤ 2
      → (process host
          (query_message next token (codes "vyatta"))
          (after_next host token (codes "vyatta") j manager)).1
        ≡ shows listing (decimal (j * 4)))
    × ((process host
          (query_message next token (codes "vyatta"))
          (after_next host token (codes "vyatta") 3 manager)).1
        ≡ shows listing (codes "-1"))
unfolding lookup str_eq is_there
next_covers_example =
    next_covers host token (codes "vyatta") manager listing 10 Plain-token Plain-user refl refl refl
      refl 2 (omega arith) (omega arith) (omega arith) refl refl (omega arith) (omega arith)

answers_own_example :
    ((process host (query_message processes token (codes "vyatta")) manager).1
      ≡ (process host (query_message processes token (codes "vyatta")) busier).1)
    × ((process host (query_message details token (codes "vyatta")) manager).1
        ≡ (process host (query_message details token (codes "vyatta")) busier).1)
    × ((process host (query_message details token (codes "vyatta")) manager).0 ≡ manager)
unfolding chosen str_eq
answers_own_example =
    answers_own host token (codes "vyatta") manager busier Plain-token Plain-user refl

next_foreign_example :
    process host (query_message next token (codes "eve")) manager ≡ (manager, answer [] ∷ [])
unfolding lookup str_eq
next_foreign_example =
    next_foreign host token (codes "eve") manager listing Plain-token Plain-other refl (λ e. cc)

kill_process_once_example : kill_process host token manager ≡ (
  record manager { procs = erase token manager.procs },
  unlink (codes "/tmp/" ++ token) ∷ run_cmd (codes "kill -15 -" ++ pid_text 41) ∷ [],
)
kill_process_once_example = kill_process_once host token manager 41 [] refl refl (λ ct. refl)

delete_any_user_example :
    (more : List Action) × (process host (query_message delete token (codes "eve")) manager ≡ (
      record manager { procs = erase token manager.procs },
      unlink (codes "/tmp/" ++ token)
          ∷ run_cmd (codes "kill -15 -" ++ c_str (pid_text 41 ++ host.buffer_rest))
          ∷ more,
    ))
delete_any_user_example =
    delete_any_user host token (codes "eve") (pid_text 41) manager Plain-token Plain-other refl
      (λ e. pid_text-ne-nil 41 e)

-- The iterator of kill_all stands on an entry that kill_process has erased.
kill_all_stops : kill_all host manager.procs manager ≡ undefined
unfolding kill_all step_from kill_process lookup erase str_eq pid_text decimal
kill_all_stops = refl

listable : IsListable listing
listable = record {
  start = omega arith;
  command = word (codes "ls") (λ e. cc) refl refl;
  token = word token (λ e. cc) refl refl;
  user = word (codes "vyatta") (λ e. cc) refl refl;
}

abbrev daemon_reply : Str
daemon_reply = list_processes (of_user (codes "vyatta")) manager.procs

abbrev pub peer : Peer
peer = record {
  connects = true;
  accepts = λ message. true;
  reply = λ message. some daemon_reply;
  unset = 0;
  content = λ path. none;
  is_there = λ path. false;
  opens = λ file. true;
  errno_einval = false;
}

All-IsListable : All IsListable (chosen (of_user (codes "vyatta")) manager.procs)
unfolding chosen str_eq
All-IsListable = (listable, tt)

processes_of-list_processes_example :
    Server.processes_of peer (some (list_processes (of_user (codes "vyatta")) manager.procs))
    ≡ done (map (shown_process peer) (chosen (of_user (codes "vyatta")) manager.procs))
processes_of-list_processes_example =
    processes_of-list_processes peer (of_user (codes "vyatta")) manager.procs All-IsListable

get_processes-process_example :
    get_processes peer (codes "vyatta")
    ≡ done (map (shown_process peer) (chosen (of_user (codes "vyatta")) manager.procs))
get_processes-process_example =
    get_processes-process peer host manager (codes "vyatta") daemon_reply (λ e. cc) Plain-user
      (omega arith) refl refl
      (ap (λ r. r.1)
        (process-encode host (query processes (codes "123456") (codes "vyatta")) manager
          ((Lacks-has b'<' (codes "123456") refl, omega arith), Plain-user)))
      All-IsListable
