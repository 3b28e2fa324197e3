-- ===== src/Chunker/Daemon/Reachable.antt =====
-- The states that the daemon reaches, from any options and through any rounds of its loop
-- (src/server/chunker2_main.cc, chunker2_manager.cc).
use vyatta_rest.Prelude.{
  ℕ, ◌≤◌, ◌≡◌, ◌≢◌, refl, ap, sym, subst, ◌∙◌, Bool, true, false, List, [], ◌∷◌, ◌++◌, Option, none,
  some, arith, ltb, if◌then◌else◌, take, Bool-cases, inl, inr, cases_if, either_if, Option-cases,
  All,
}
use vyatta_rest.Text.{Str, c_str, codes, empty, str_eq, contains}
use vyatta_rest.Text.Find.{str_eq_iff}
use vyatta_rest.Text.Map.{StrMap, lookup, assign, erase, lookup-assign, lookup-erase}
use vyatta_rest.Outcome.{done, >>=-eq-done}
use vyatta_rest.Chunker.Message.{message_token, message_statement, message_user}
use vyatta_rest.Chunker.Manager.{
  Manager, ProcessData, Host, Action, start_new, on_command, advance, close_dead, on_next,
  kill_known, kill_process, dispatch, process,
}
use vyatta_rest.Chunker.Daemon.{
  Flag, size, pid_path, process_pid_path, timeout, debug, usage, Settings, defaults, chunk_size_of,
  kill_timeout_of, parse_options, new_manager, Arrival, nothing, failed_read, bytes, read, run,
}

-- Settings within the bounds that main enforces.
abbrev pub Bounded : Settings → Type 0
Bounded s = (1024 ≤ s.chunk_size) × (s.chunk_size ≤ 131072) × (s.kill_timeout ≤ 86400)

chunk_size_of-bounds : (t : Str) → (1024 ≤ chunk_size_of t) × (chunk_size_of t ≤ 131072)
unfolding chunk_size_of
chunk_size_of-bounds t = ground arith

kill_timeout_of-bounds : (t : Str) → kill_timeout_of t ≤ 86400
unfolding kill_timeout_of
kill_timeout_of-bounds t = ground arith

parse_options-Bounded :
    (flags : List Flag) (s s' : Settings) → Bounded s → parse_options flags s ≡ some s' → Bounded s'
unfolding parse_options
parse_options-Bounded [] s s' b h = subst Bounded (let q : s ≡ s' = cc in q) b
parse_options-Bounded (size t ∷ flags) s s' b h =
    parse_options-Bounded flags _ s' (let (x, y) = chunk_size_of-bounds t in (x, y, b.2)) h
parse_options-Bounded (pid_path t ∷ flags) s s' b h = parse_options-Bounded flags _ s' b h
parse_options-Bounded (process_pid_path t ∷ flags) s s' b h = parse_options-Bounded flags _ s' b h
parse_options-Bounded (timeout t ∷ flags) s s' b h =
    parse_options-Bounded flags _ s' (b.0, b.1, kill_timeout_of-bounds t) h
parse_options-Bounded (debug ∷ flags) s s' b h = parse_options-Bounded flags _ s' b h
parse_options-Bounded (usage ∷ flags) s s' b h = absurd cc

-- The entry of a key: its token is the key, and it has a user and a command.
abbrev pub IsEntry : Str → ProcessData → Type 0
IsEntry k p = (p.token ≡ k) × (p.user ≢ []) × (p.command ≢ [])

abbrev pub Entries : StrMap ProcessData → Type 0
Entries procs = (k : Str) (p : ProcessData) → lookup k procs ≡ some p → IsEntry k p

-- The table has only such entries, and the size of a chunk is within the bounds.
abbrev pub Sound : Manager → Type 0
Sound m = Entries m.procs × (1024 ≤ m.chunk_size) × (m.chunk_size ≤ 131072)

assign-Entries :
    (k : Str) (p : ProcessData) (procs : StrMap ProcessData)
    → IsEntry k p
    → Entries procs
    → Entries (assign k p procs)
assign-Entries k p procs e h j q g =
    let r = sym (lookup-assign k j p procs) ∙ g in
    elim (Bool-cases (str_eq k j)) [
      | inl b ↦
          let s : some p ≡ some q = sym (ap (λ x. if x then some p else lookup j procs) b) ∙ r in
          let n : p ≡ q = cc in
          subst (λ x. IsEntry j x) n (subst (λ x. IsEntry x p) ((str_eq_iff k j).0 b) e)
      | inr b ↦ h j q (sym (ap (λ x. if x then some p else lookup j procs) b) ∙ r)
    ]

erase-Entries : (k : Str) (procs : StrMap ProcessData) → Entries procs → Entries (erase k procs)
erase-Entries k procs h j q g =
    let r = sym (lookup-erase k j procs) ∙ g in
    elim (Bool-cases (str_eq k j)) [
      | inl b ↦
          let s : none ≡ some q = sym (ap (λ x. if x then none else lookup j procs) b) ∙ r in
          absurd cc
      | inr b ↦ h j q (sym (ap (λ x. if x then none else lookup j procs) b) ∙ r)
    ]

-- What a handler leaves.
abbrev SoundAfter : Manager × List Action → Type 0
SoundAfter r = Sound r.0

not_empty : (t : Str) → empty t ≡ false → t ≢ []
not_empty [] h = cc
not_empty (x ∷ t) h = λ e. cc

start_new-IsEntry :
    (token cmd user : Str) → start_new token cmd user ≡ true → (cmd ≢ []) × (user ≢ [])
unfolding start_new
start_new-IsEntry token [] user h = absurd cc
start_new-IsEntry token (x ∷ cmd) [] h = absurd (ground (arith, h))
start_new-IsEntry token (x ∷ cmd) (y ∷ user) h = ((λ e. cc), λ e. cc)

on_command-Sound :
    (host : Host) (token statement user : Str) (o : Option ProcessData) (m : Manager)
    → lookup token m.procs ≡ o
    → Sound m
    → SoundAfter (on_command host token statement user o m)
unfolding on_command
on_command-Sound host token statement user none m e (h, b, c) =
    cases_if SoundAfter (start_new token statement user)
      (λ g.
        let (x, y) = start_new-IsEntry token statement user g in
        (assign-Entries token _ m.procs (refl, y, x) h, b, c))
      (λ g. (h, b, c))
on_command-Sound host token statement user (some p) m e (h, b, c) =
    either_if SoundAfter (empty statement) (assign-Entries token _ m.procs (h token p e) h, b, c)
      (either_if SoundAfter (start_new token statement user) (h, b, c) (h, b, c))

advance-IsEntry :
    (n : ℕ) (o : Option ℕ) (ended : Bool) (k : Str) (p : ProcessData)
    → IsEntry k p
    → IsEntry k (advance n o ended p)
unfolding advance
advance-IsEntry n none ended k p e = e
advance-IsEntry n (some s) ended k p e = either_if (IsEntry k) (ltb _ _) e e

close_dead-IsEntry : (k : Str) (p : ProcessData) → IsEntry k p → IsEntry k (close_dead p)
unfolding close_dead
close_dead-IsEntry k p e = either_if (IsEntry k) _ e e

on_next-Sound :
    (host : Host) (token user : Str) (o : Option ProcessData) (m : Manager)
    → lookup token m.procs ≡ o
    → Sound m
    → SoundAfter (on_next host token user o m)
unfolding on_next
on_next-Sound host token user none m e s = s
on_next-Sound host token user (some p) m e (h, b, c) =
    either_if SoundAfter (str_eq user p.user)
      (
        assign-Entries token _ m.procs
            (advance-IsEntry m.chunk_size _ _ token (close_dead p)
              (close_dead-IsEntry token p (h token p e)))
            h,
        b,
        c,
      )
      (h, b, c)

kill_known-Sound :
    (host : Host) (key : Str) (o : Option Str) (m : Manager)
    → Sound m
    → SoundAfter (kill_known host key o m)
unfolding kill_known
kill_known-Sound host key none m s = s
kill_known-Sound host key (some []) m s = s
kill_known-Sound host key (some (x ∷ content)) m (h, b, c) = (erase-Entries key m.procs h, b, c)

dispatch-Sound :
    (host : Host) (command token : Str) (m : Manager)
    → Sound m
    → SoundAfter (dispatch host command token m)
unfolding dispatch kill_process
dispatch-Sound host command token m s =
    let user = message_user command in
    either_if SoundAfter (contains (codes "<command>") command)
      (on_command-Sound host token (message_statement command) user (lookup token m.procs) m refl s)
      (either_if SoundAfter (contains (codes "<process>") command) s (
        either_if SoundAfter (contains (codes "<details>") command) s (
          either_if SoundAfter (contains (codes "<next>") command)
            (on_next-Sound host token user (lookup token m.procs) m refl s)
            (either_if SoundAfter (contains (codes "<delete>") command)
              (kill_known-Sound host token _ m s) s))))

process-Sound :
    (host : Host) (command : Str) (m : Manager) → Sound m → SoundAfter (process host command m)
unfolding process
process-Sound host command m s = elim (Option-cases (message_token command)) [
  | inl e ↦ rw (process, e) s
  | inr (token, e) ↦ rw (process, e) (dispatch-Sound host command token m s)
]

-- The states that the daemon reaches: that which main sets up from its options, and what a round of
-- its loop makes of one of them.
pub data Reachable : Manager → Type 0 where
  set_up :
      (flags : List Flag) (s : Settings)
      → parse_options flags defaults ≡ some s
      → Reachable (new_manager s)
  round :
      {m m' : Manager} {acts : List Action} (host : Host) (arrival : Arrival)
      → Reachable m
      → read host arrival m ≡ done (m', acts)
      → Reachable m'

read-Sound :
    (host : Host) (arrival : Arrival) (m m' : Manager) (acts : List Action)
    → Sound m
    → read host arrival m ≡ done (m', acts)
    → Sound m'
unfolding read
read-Sound host nothing m m' acts s e = subst Sound (let q : m ≡ m' = cc in q) s
read-Sound host failed_read m m' acts s e = absurd cc
read-Sound host (bytes t) m m' acts s e =
    let r = process host (c_str (take 1024 t)) m in
    subst Sound (let q : r.0 ≡ m' = cc in q) (process-Sound host (c_str (take 1024 t)) m s)

-- In every state that the daemon reaches, from any options and through any rounds of its loop, each
-- entry of the table stands at its own token and has a user and a command, and the size of a chunk
-- is at least 1024 and at most 131072.
pub Reachable-Sound : {m : Manager} → Reachable m → Sound m
unfolding lookup
Reachable-Sound (set_up flags s e) =
    let b = parse_options-Bounded flags defaults s (omega arith, omega arith, omega arith) e in
    ((λ k p h. absurd cc), b.0, b.1)
Reachable-Sound (round {m} {m'} {acts} host arrival r e) =
    read-Sound host arrival m m' acts (Reachable-Sound r) e

-- Whatever the loop of main meets, it stays within these states.
run-Reachable :
    (rounds : List (Host × Arrival)) (m m' : Manager) (acts : List Action)
    → Reachable m
    → run rounds m ≡ done (m', acts)
    → Reachable m'
unfolding run
run-Reachable [] m m' acts r e = subst Reachable (let q : m ≡ m' = cc in q) r
run-Reachable ((host, arrival) ∷ rounds) m m' acts r e =
    let ((m1, now), a, b) = >>=-eq-done (read host arrival m) _ e in
    let ((m2, later), c, d) = >>=-eq-done (run rounds m1) _ b in
    subst Reachable (let q : m2 ≡ m' = cc in q)
      (run-Reachable rounds m1 m2 later (round host arrival r a) c)

-- A round in which a connection that is accepted is also read.
abbrev pub Readable : Host × Arrival → Type 0
Readable (host, failed_read) = ⊥
Readable (host, nothing) = Unit
Readable (host, bytes t) = Unit

read_returns :
    (host : Host) (arrival : Arrival) (m : Manager)
    → Readable (host, arrival)
    → (r : Manager × List Action) × (read host arrival m ≡ done r)
unfolding read
read_returns host nothing m h = (_, refl)
read_returns host failed_read m h = absurd h
read_returns host (bytes t) m h = (_, refl)

run_returns :
    (rounds : List (Host × Arrival)) (m : Manager)
    → All Readable rounds
    → (r : Manager × List Action) × (run rounds m ≡ done r)
unfolding run
run_returns [] m h = (_, refl)
run_returns ((host, arrival) ∷ rounds) m h =
    let (r, e) = read_returns host arrival m h.0 in
    let (r', e') = run_returns rounds r.0 h.1 in ((r'.0, r.1 ++ r'.1), rw (run, e, e'))

-- From any options, and through any rounds of the loop in which no read of a connection fails, the
-- daemon comes to a state that the relation reaches; in it each entry of the table stands at its own
-- token and has a user and a command, and the size of a chunk is at least 1024 and at most 131072.
pub run-Sound :
    (flags : List Flag) (s : Settings) (rounds : List (Host × Arrival))
    → parse_options flags defaults ≡ some s
    → All Readable rounds
    → (m : Manager) × (acts : List Action) × (run rounds (new_manager s) ≡ done (m, acts))
      × Reachable m
      × Sound m
run-Sound flags s rounds e h =
    let ((m, acts), q) = run_returns rounds (new_manager s) h in
    let r = run-Reachable rounds (new_manager s) m acts (set_up flags s e) q in
    (m, acts, q, r, Reachable-Sound r)
