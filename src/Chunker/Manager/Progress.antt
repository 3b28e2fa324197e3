-- ===== src/Chunker/Manager/Progress.antt =====
-- Reading the output of a finished process by `<next>` requests
-- (ChunkerManager::process, src/server/chunker2_manager.cc).
use vyatta_rest.Prelude.{
  ℕ, zero, suc, ◌+◌, ◌*◌, ◌^◌, ◌<◌, ◌≤◌, ◌≡◌, refl, sym, ap, ◌∙◌, true, List, [], ◌∷◌, ◌++◌, some,
  arith,
}
use vyatta_rest.Text.{Str, codes, str_eq}
use vyatta_rest.Text.Find.{str_eq_iff, str_eq_refl}
use vyatta_rest.Text.Decimal.{signed_decimal, decimal}
use vyatta_rest.Text.Map.{lookup, assign, lookup-assign}
use vyatta_rest.Chunker.Message.{query_message, next}
use vyatta_rest.Chunker.Message.Wire.{Plain}
use vyatta_rest.Chunker.Manager.Requests.{process-encode, query}
use vyatta_rest.Chunker.Manager.{
  Manager, Host, Action, answer, ProcessData, k_running, k_dead, advance, close_dead, on_next,
  process, describe, chunk_file, end_file, is_there,
}

-- A request, with the file complete.
abbrev pub step : ℕ → ℕ → ProcessData → ProcessData
step c size p = advance c (some size) true (close_dead p)

abbrev pub steps : ℕ → ℕ → ℕ → ProcessData → ProcessData
steps c size zero p = p
steps c size (suc k) p = step c size (steps c size k p)

module _ (c size : ℕ) (p : ProcessData) (pos : 0 < c) (c_small : c < 2 ^ 32)
    (size_small : size < 2 ^ 32) (fresh : p.read_offset ≡ 0) (running : p.status ≡ k_running) where
  -- While a chunk is left behind the offset, it grows by a chunk.
  step_inside :
      (q : ProcessData)
      → q.status ≡ k_running
      → q.read_offset + c < size
      → step c size q ≡ record q { read_offset = q.read_offset + c }
  unfolding advance close_dead
  step_inside q r h = rw r (ground arith)

  step_last :
      (q : ProcessData)
      → q.status ≡ k_running
      → q.read_offset < size
      → size ≤ q.read_offset + c
      → step c size q ≡ record q { read_offset = size; status = k_dead }
  unfolding advance close_dead
  step_last q r l h = rw r (ground arith)

  steps_inside : (k : ℕ) → k * c < size → steps c size k p ≡ record p { read_offset = k * c }
  steps_inside zero h = ground (arith, fresh)
  steps_inside (suc k) h =
      ap (step c size) (steps_inside k (omega arith))
      ∙ step_inside (record p { read_offset = k * c }) running (omega arith)
      ∙ ap (λ n. record p { read_offset = n }) (omega arith)

  -- The first offset from which no chunk is left.
  steps_last :
      (k : ℕ)
      → k * c < size
      → size ≤ k * c + c
      → steps c size (suc k) p ≡ record p { read_offset = size; status = k_dead }
  steps_last k h l =
      ap (step c size) (steps_inside k h) ∙ step_last (record p { read_offset = k * c }) running h l

user-steps : (c size k : ℕ) (p : ProcessData) → (steps c size k p).user ≡ p.user
unfolding advance close_dead
user-steps c size zero p = refl
user-steps c size (suc k) p = ground (arith, user-steps c size k p)

describe-step : (c size : ℕ) (p : ProcessData) → describe (step c size p) ≡ describe p
unfolding describe advance close_dead
describe-step c size p = ground arith

describe-steps : (c size k : ℕ) (p : ProcessData) → describe (steps c size k p) ≡ describe p
describe-steps c size zero p = refl
describe-steps c size (suc k) p =
    describe-step c size (steps c size k p) ∙ describe-steps c size k p

running_offset :
    (q : ProcessData)
    → q.status ≡ k_running
    → q.read_offset < 2 ^ 63
    → signed_decimal (close_dead q).read_offset ≡ decimal q.read_offset
unfolding close_dead signed_decimal
running_offset q r h = rw r (ground arith)

decimal_one : decimal 1 ≡ codes "1"
unfolding decimal
decimal_one = refl

dead_offset :
    (q : ProcessData) → q.status ≡ k_dead → signed_decimal (close_dead q).read_offset ≡ codes "-1"
unfolding close_dead signed_decimal
dead_offset q r = rw r (ap (λ d. b'-' ∷ d) decimal_one)

-- The daemon's table after that many `<next>` requests of the user for the token.
abbrev pub after_next : Host → Str → Str → ℕ → Manager → Manager
after_next host token user zero m = m
after_next host token user (suc k) m =
    (process host (query_message next token user) (after_next host token user k m)).0

-- The answer to a request for a process, with the offset that it shows.
abbrev pub shows : ProcessData → Str → List Action
shows p offset = answer (describe p ++ (codes "%3A" ++ (offset ++ codes "\n"))) ∷ []

module _ (host : Host) (token user : Str) (m : Manager) (p : ProcessData) (size : ℕ)
    (pt : Plain token) (pu : Plain user) (known : lookup token m.procs ≡ some p)
    (owner : p.user ≡ user) (file : host.size_of (chunk_file token) ≡ some size)
    (ended : is_there (host.size_of (end_file token)) ≡ true) where
  next-is :
      (m' : Manager)
      → process host (query_message next token user) m'
        ≡ on_next host token user (lookup token m'.procs) m'
  next-is m' = process-encode host (query next token user) m' (pt, pu)

  on_next-owner :
      (m' : Manager) (q : ProcessData)
      → q.user ≡ user
      → m'.chunk_size ≡ m.chunk_size
      → on_next host token user (some q) m' ≡ (
        record m' { procs = assign token (step m.chunk_size size q) m'.procs },
        shows q (signed_decimal (close_dead q).read_offset),
      )
  unfolding on_next
  on_next-owner m' q o s =
      let same : str_eq user q.user ≡ true = (str_eq_iff user q.user).1 (sym o) in
      rw (same, file, ended, s)

  next_step :
      (k : ℕ)
      → lookup token (after_next host token user k m).procs ≡ some (steps m.chunk_size size k p)
      → (after_next host token user k m).chunk_size ≡ m.chunk_size
      → process host (query_message next token user) (after_next host token user k m) ≡ (
        record (after_next host token user k m) {
          procs =
              assign token
                (steps m.chunk_size size (suc k) p)
                (after_next host token user k m).procs;
        },
        shows
            (steps m.chunk_size size k p)
            (signed_decimal (close_dead (steps m.chunk_size size k p)).read_offset),
      )
  next_step k e s =
      next-is (after_next host token user k m)
      ∙ ap (λ o. on_next host token user o (after_next host token user k m)) e
      ∙ on_next-owner (after_next host token user k m) (steps m.chunk_size size k p)
          (user-steps m.chunk_size size k p ∙ owner) s

  table :
      (k : ℕ)
      → (lookup token (after_next host token user k m).procs ≡ some (steps m.chunk_size size k p))
        × ((after_next host token user k m).chunk_size ≡ m.chunk_size)
  table zero = (known, refl)
  table (suc k) =
      let (e, s) = table k in
      let moved = ap (λ r. r.0) (next_step k e s) in
      (
        ap (λ n. lookup token n.procs) moved ∙ rw (lookup-assign, str_eq_refl),
        ap (λ n. n.chunk_size) moved ∙ s,
      )

  answers :
      (k : ℕ)
      → (process host (query_message next token user) (after_next host token user k m)).1
        ≡ shows p (signed_decimal (close_dead (steps m.chunk_size size k p)).read_offset)
  answers k =
      let (e, s) = table k in
      ap (λ r. r.1) (next_step k e s)
      ∙ ap
          (λ d.
            answer (
              d
              ++ (codes "%3A"
                  ++ (signed_decimal (close_dead (steps m.chunk_size size k p)).read_offset
                      ++ codes "\n")))
            ∷ [])
          (describe-steps m.chunk_size size k p)

  -- The output of an ended command is offered once, chunk by chunk: for the number `k` of whole
  -- chunks in front of the last one, the request number j ≤ k is answered with the offset j times
  -- the chunk size, and the request behind them with -1. The command is a known process of the user
  -- that has not been read from; the sizes of its output, which is not empty, and of a chunk are
  -- below 2^32; the token and the user hold no '<'.
  pub next_covers :
      (k : ℕ)
      → 0 < m.chunk_size
      → m.chunk_size < 2 ^ 32
      → size < 2 ^ 32
      → p.read_offset ≡ 0
      → p.status ≡ k_running
      → k * m.chunk_size < size
      → size ≤ k * m.chunk_size + m.chunk_size
      → ((j : ℕ)
          → j ≤ k
          → (process host (query_message next token user) (after_next host token user j m)).1
            ≡ shows p (decimal (j * m.chunk_size)))
        × ((process host (query_message next token user) (after_next host token user (suc k) m)).1
            ≡ shows p (codes "-1"))
  next_covers k pos c_small size_small fresh running below last = (
    λ j le.
        answers j
        ∙ ap (shows p) (
            ap (λ q. signed_decimal (close_dead q).read_offset)
              (steps_inside m.chunk_size size p pos c_small size_small fresh running j
                (before j le))
            ∙ running_offset (record p { read_offset = j * m.chunk_size }) running
                (omega (arith, before j le))),
    answers (suc k)
        ∙ ap (λ q. shows p (signed_decimal (close_dead q).read_offset))
            (steps_last m.chunk_size size p pos c_small size_small fresh running k below last)
        ∙ ap (shows p) (dead_offset (record p { read_offset = size; status = k_dead }) refl),
  )
    where
      before : (j : ℕ) → j ≤ k → j * m.chunk_size < size
      before j le = grind arith
