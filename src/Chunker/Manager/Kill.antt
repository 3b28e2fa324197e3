-- ===== src/Chunker/Manager/Kill.antt =====
-- Killing processes (ChunkerManager::kill_process, src/server/chunker2_manager.cc, and
-- the pid file of ChunkerProcessor::pid_output, src/server/chunker2_processor.cc).
use vyatta_rest.Prelude.{
  ℕ, zero, suc, ◌≡◌, ◌≢◌, refl, ap, ◌∙◌, false, [], ◌∷◌, ◌++◌, some, arith, List,
}
use vyatta_rest.Text.{c_str, Str, codes}
use vyatta_rest.Text.Find.{Lacks, Lacks-append}
use vyatta_rest.Text.Decimal.{decimal, decimal-Lacks, decimal-ne-nil}
use vyatta_rest.Text.Map.{erase}
use vyatta_rest.Chunker.Message.{delete, query_message}
use vyatta_rest.Chunker.Message.Wire.{Plain}
use vyatta_rest.Chunker.Manager.Requests.{process-encode, query}
use vyatta_rest.Chunker.Manager.{
  Manager, Host, unlink, run_cmd, process, kill_process, kill_known, Action, kill_loop,
}

-- What pid_output writes for a process group: `fprintf(fp, "%d\n", pid)`.
unfoldable pub pid_text : ℕ → Str
pid_text pid = decimal pid ++ codes "\n"

c_str-Lacks : (s t : Str) → Lacks 0 s → c_str (s ++ (zero ∷ t)) ≡ s
unfolding c_str
c_str-Lacks [] t h = refl
c_str-Lacks (zero ∷ s) t h = absurd (h.0 refl)
c_str-Lacks (suc c ∷ s) t h = ap (◌∷◌ (suc c)) (c_str-Lacks s t h.1)

c_str-pid_text : (pid : ℕ) (t : Str) → c_str (pid_text pid ++ (zero ∷ t)) ≡ pid_text pid
unfolding pid_text
c_str-pid_text pid t =
    c_str-Lacks (decimal pid ++ codes "\n") t
      (Lacks-append 0 (decimal pid) (codes "\n") (decimal-Lacks 0 pid refl) (omega arith, tt))

pub pid_text-ne-nil : (pid : ℕ) → pid_text pid ≢ []
unfolding pid_text
pid_text-ne-nil pid = go (decimal pid) (decimal-ne-nil pid)
  where
    go : (s : Str) → s ≢ [] → s ++ codes "\n" ≢ []
    go [] h = absurd (h refl)
    go (x ∷ s) h = λ q. cc

kill_known-some :
    (host : Host) (key : Str) (m : Manager) (content : Str)
    → content ≢ []
    → kill_known host key (some content) m ≡ (
      record m { procs = erase key m.procs },
      unlink (codes "/tmp/" ++ key) ∷ kill_loop 3 host (c_str (content ++ host.buffer_rest)),
    )
unfolding kill_known
kill_known-some host key m [] h = absurd (h refl)
kill_known-some host key m (x ∷ content) h = refl

kill_loop_gone :
    (host : Host) (ct : ℕ) (pid : Str)
    → host.stat_exists ct (codes "/proc/" ++ (pid ++ codes "/stat")) ≡ false
    → kill_loop (suc ct) host pid ≡ run_cmd (codes "kill -15 -" ++ pid) ∷ []
unfolding kill_loop
kill_loop_gone host ct pid e = rw e

-- The pid file ends in a newline, and with it the name that is looked up under /proc, which no
-- process has. So where pid_output wrote the pid file, the bytes of the buffer behind what is read
-- from it begin with a NUL, and no file of the looked-up name is there, the process gets one SIGTERM,
-- its pid file is removed, it is taken out of the table, and no SIGKILL is sent.
pub kill_process_once :
    (host : Host) (key : Str) (m : Manager) (pid : ℕ) (rest : Str)
    → host.pid_file (codes "/tmp/" ++ key) ≡ some (pid_text pid)
    → host.buffer_rest ≡ zero ∷ rest
    → ((ct : ℕ) → host.stat_exists ct (codes "/proc/" ++ (pid_text pid ++ codes "/stat")) ≡ false)
    → kill_process host key m ≡ (
      record m { procs = erase key m.procs },
      unlink (codes "/tmp/" ++ key) ∷ run_cmd (codes "kill -15 -" ++ pid_text pid) ∷ [],
    )
unfolding kill_process
kill_process_once host key m pid rest file nul gone =
    ap (λ o. kill_known host key o m) file
    ∙ kill_known-some host key m (pid_text pid) (pid_text-ne-nil pid)
    ∙ rw (nul, c_str-pid_text pid rest, kill_loop_gone host 2 (pid_text pid) (gone 2))

-- The user of a `<delete>` is not looked at: whoever owns the process, a delete message of any user,
-- with a token and a user that hold no '<', takes the process out of the table, removes its pid file
-- and begins by sending SIGTERM to the group that the pid file names, if that has content.
pub delete_any_user :
    (host : Host) (tok user content : Str) (m : Manager)
    → Plain tok
    → Plain user
    → host.pid_file (codes "/tmp/" ++ tok) ≡ some content
    → content ≢ []
    → (more : List Action) × (process host (query_message delete tok user) m ≡ (
      record m { procs = erase tok m.procs },
      unlink (codes "/tmp/" ++ tok)
          ∷ run_cmd (codes "kill -15 -" ++ c_str (content ++ host.buffer_rest))
          ∷ more,
    ))
unfolding kill_process kill_loop
delete_any_user host tok user content m pt pu file ne = (
  _,
  process-encode host (query delete tok user) m (pt, pu)
      ∙ (ap (λ o. kill_known host tok o m) file ∙ kill_known-some host tok m content ne),
)
