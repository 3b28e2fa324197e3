-- ===== src/Rest/Execute.antt =====
-- `Rest::execute` and `Rest::mkdir_p` of src/server/common.cc. The shell and the file system are
-- parameters.
use vyatta_rest.Prelude.{
  ℕ, zero, suc, ◌/◌, ◌%◌, Bool, true, false, List, [], ◌∷◌, ◌++◌, Option, none, some, ◌==◌,
  if◌then◌else◌, length, take,
}
use vyatta_rest.Text.{c_str, Str, codes, rfind}

-- What popen, getline and pclose give for a command: `none` where popen fails, else the wait status
-- and the lines.
abbrev pub Shell : Type 0
Shell = Str → Option (ℕ × List Str)

-- `stdout += string(buf) + " "` for each line
unfoldable pub add_lines : Str → List Str → Str
add_lines stdout [] = stdout
add_lines stdout (buf ∷ lines) = add_lines (stdout ++ (c_str buf ++ codes " ")) lines

-- `if (WIFEXITED(err)) err = WEXITSTATUS(err)`
unfoldable pub exit_status : ℕ → ℕ
exit_status err = if err % 128 == 0 then (err / 256) % 256 else err

-- execute(cmd, stdout, true): the code that it returns, and stdout.
unfoldable pub execute : Shell → Str → Str → ℕ × Str
unfolding add_lines exit_status
execute shell cmd stdout = elim (shell cmd) [
  | none ↦ (0, stdout)
  | some r ↦ (exit_status r.0, add_lines stdout r.1)
]

pub data MkdirResult : Type 0 where
  made no_entry failed : MkdirResult

module _ {W : Type 0} (mkdir : Str → W → MkdirResult × W) where
  abbrev is_made : MkdirResult × W → Bool × W
  is_made (made, w) = (true, w)
  is_made (no_entry, w) = (false, w)
  is_made (failed, w) = (false, w)

  abbrev then_made : Str → Bool × W → Bool × W
  then_made path (false, w) = (false, w)
  then_made path (true, w) = is_made (mkdir path w)

  -- Behind the first attempt: `parent` makes what stands before the last '/'.
  abbrev with_parent : (Str → W → Bool × W) → Str → MkdirResult × W → Bool × W
  with_parent parent path (made, w) = (true, w)
  with_parent parent path (failed, w) = (false, w)
  with_parent parent path (no_entry, w) = elim (rfind b'/' path) [
    | none ↦ (false, w)
    | some slash ↦ then_made path (parent (take slash path) w)
  ]

  mkdir_loop : ℕ → Str → W → Bool × W
  mkdir_loop zero path w = (false, w)
  mkdir_loop (suc fuel) path w = with_parent (mkdir_loop fuel) path (mkdir path w)

  -- mkdir_p(path): whether it returns 0. Each call is on a shorter path, so the fuel is enough.
  unfoldable pub mkdir_p : Str → W → Bool × W
  unfolding mkdir_loop
  mkdir_p path w = mkdir_loop (suc (length path)) path w
