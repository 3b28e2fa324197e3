-- ===== src/Mode/Child.antt =====
-- `Mode::system_out` of src/server/mode.cc: the shell that runs a command line, and the loop that
-- reads what it prints.
use vyatta_rest.Prelude.{
  List, [], ◌∷◌, ◌++◌, Option, none, some, ℕ, Bool, true, ◌≡◌, ◌∙◌, sym, ap, if◌then◌else◌,
  append_assoc, append-nil,
}
use vyatta_rest.Text.{Str, codes, empty}
use vyatta_rest.Outcome.{Outcome, done, undefined, no_fuel, ◌>>=◌}

-- What the child does, in order; where execl fails the child exits with errno.
pub data Call : Type 0 where
  close_stdin : Call
  stdout_to_pipe : Call
  stderr_to_pipe : Call
  effective_group : Call
  effective_user : Call
  unset_env : Str → Call
  exec_shell : Str → Call

unfoldable pub child : Str → List Call
child cmd =
    close_stdin
    ∷ stdout_to_pipe
    ∷ stderr_to_pipe
    ∷ effective_group
    ∷ effective_user
    ∷ unset_env (codes "HTTP_PROXY")
    ∷ exec_shell cmd
    ∷ []

-- A round of the parent's loop: select fails, or the read after it gives bytes (none at the end of
-- the output), meets EAGAIN, or fails otherwise.
pub data Turn : Type 0 where
  select_failed : Turn
  bytes : Str → Turn
  again : Turn
  read_failed : Turn

-- The loop is still running where the rounds are spent.
unfoldable collect_output : List Turn → Str → Outcome Str
collect_output [] data_ = no_fuel
collect_output (select_failed ∷ turns) data_ = done data_
collect_output (bytes buf ∷ turns) data_ =
    let rest = collect_output turns (data_ ++ buf) in if empty buf then done data_ else rest
collect_output (again ∷ turns) data_ = collect_output turns data_
collect_output (read_failed ∷ turns) data_ = done data_

-- The rounds of a child that prints a text and then ends it.
pub data Printing : List Turn → Str → Type 0 where
  ended : {turns : List Turn} → Printing (bytes [] ∷ turns) []
  waits : {turns : List Turn} {t : Str} → Printing turns t → Printing (again ∷ turns) t
  prints :
      {turns : List Turn} {t : Str} (x : ℕ) (buf : Str)
      → Printing turns t
      → Printing (bytes (x ∷ buf) ∷ turns) (x ∷ buf ++ t)

-- The loop collects what the child prints, however it is cut into reads.
collect_output-Printing :
    {turns : List Turn} {t : Str}
    → Printing turns t
    → (data_ : Str) → collect_output turns data_ ≡ done (data_ ++ t)
unfolding collect_output
collect_output-Printing ended data_ = ap done (sym (append-nil data_))
collect_output-Printing (waits h) data_ = collect_output-Printing h data_
collect_output-Printing (prints {t} x buf h) data_ =
    collect_output-Printing h (data_ ++ x ∷ buf) ∙ ap done (append_assoc data_ (x ∷ buf) t)

-- The system: whether pipe succeeds, the rounds that a child with these calls leads to, and the exit
-- status that wait gives; `none` where wait fails, and where fork fails there is no child to wait for.
pub record Shell : Type 0 where
  pub pipe : Bool
  pub turns : List Call → List Turn
  pub wait : List Call → Option ℕ

-- WEXITSTATUS of a status that wait has not set is of an uninitialised variable.
exit_status : Str → Option ℕ → Outcome (Option ℕ × Str)
exit_status out none = undefined
exit_status out (some status) = done (some status, out)

-- system_out(cmd, out): the result, `none` for -1, and `out`.
unfoldable pub system_out : Shell → Option Str → Str → Outcome (Option ℕ × Str)
unfolding child collect_output exit_status
system_out sh none out = done (none, out)
system_out sh (some cmd) out =
    let ran =
      collect_output (sh.turns (child cmd)) [] >>= λ text. exit_status text (sh.wait (child cmd)) in
    if sh.pipe then ran else done (none, out)

-- A command whose child prints a text and then ends it, and whose exit status wait gives: the result
-- is that status and `out` is the text, however it is cut into reads and whatever `out` was.
pub system_out-Printing :
    (sh : Shell) (cmd out : Str) {t : Str} {status : ℕ}
    → sh.pipe ≡ true
    → Printing (sh.turns (child cmd)) t
    → sh.wait (child cmd) ≡ some status
    → system_out sh (some cmd) out ≡ done (some status, t)
unfolding system_out exit_status
system_out-Printing sh cmd out pipe printing status =
    rw (pipe, collect_output-Printing printing [], status)
