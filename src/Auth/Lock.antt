-- ===== src/Auth/Lock.antt =====
-- Class Lock of src/server/authsession.cc: a lock file beside the session file, a copy that is
-- written while it is read, and the rename that puts the copy in its place.
use vyatta_rest.Prelude.{
  ℕ, zero, suc, ◌+◌, ◌≡◌, ◌<◌, refl, Bool, true, false, not, ◌&&◌, List, [], Option, none, some,
  ◌==◌, if◌then◌else◌, arith,
}
use vyatta_rest.Text.{Str}

-- The session file, its `_tmp` copy and whether the `.lck` file is there; a file is its lines.
pub record Files : Type 0 where
  pub file : Option (List Str)
  pub tmp : Option (List Str)
  pub lck : Bool

-- Lock::_retry_lock_count
abbrev pub retry_lock_count : ℕ
retry_lock_count = 5

-- The loop that opens the lock file with O_CREAT | O_EXCL: `ct` rounds are over, and `held` says
-- whether another process holds the lock at a round. What comes back is the final `ct`, which a
-- successful open leaves as it is.
unfoldable pub acquire : (ℕ → Bool) → ℕ → ℕ → ℕ
acquire held zero ct = ct
acquire held (suc left) ct = let next = acquire held left (ct + 1) in if held ct then next else ct

-- What the constructor meets: at which rounds another process holds the lock, and whether fopen opens
-- the session file and the copy.
pub record Opening : Type 0 where
  pub held : ℕ → Bool
  pub opens_file : Bool
  pub opens_copy : Bool

abbrev is_some {ℓ} : {A : Type ℓ} → Option A → Bool
is_some none = false
is_some (some a) = true

-- The constructor: the files with the copy truncated, if it is opened, and `status()`.
unfoldable pub open_lock : Opening → Files → Files × Bool
unfolding acquire
open_lock o f =
    let ct = acquire o.held retry_lock_count 0 in
    (
      record f { tmp = if o.opens_copy then some [] else f.tmp; lck = true },
      is_some f.file && o.opens_file && (o.opens_copy && not (ct == retry_lock_count)),
    )

-- rename(tmp_file, _file), which leaves the file as it is where there is no copy.
unfoldable pub rename_copy : Files → Files
rename_copy f = elim f.tmp [ none ↦ f | some lines ↦ record f { file = some lines; tmp = none } ]

-- The destructor: the copy is renamed to the file, and the lock file is unlinked, whoever made it.
unfoldable pub close_lock : Files → Files
unfolding rename_copy
close_lock f = record (rename_copy f) { lck = false }

-- When the lock is held by another process at every round, and the copy can be opened, the
-- constructor reports failure, and the constructor and the destructor together still empty the
-- session file and remove that process's lock.
pub lock_failure_clobbers :
    (o : Opening) (f : Files)
    → ((ct : ℕ) → ct < retry_lock_count → o.held ct ≡ true)
    → o.opens_copy ≡ true
    → ((open_lock o f).1 ≡ false)
      × ((close_lock (open_lock o f).0).file ≡ some [])
      × ((close_lock (open_lock o f).0).lck ≡ false)
unfolding open_lock close_lock
lock_failure_clobbers o f h copy = (
  ground (
    arith,
    h 0 (omega arith),
    h 1 (omega arith),
    h 2 (omega arith),
    h 3 (omega arith),
    h 4 (omega arith),
  ),
  rw copy,
  refl,
)
