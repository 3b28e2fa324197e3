-- ===== src/MultiResp/Listing.antt =====
-- What the daemon lists (src/server/chunker2_manager.cc), the server reads
-- (src/server/multirespcmd.cc).
use vyatta_rest.Prelude.{
  ℕ, ◌<◌, ◌^◌, ◌≡◌, ◌≢◌, refl, Bool, false, List, [], ◌∷◌, ◌++◌, map, arith, All, append_assoc,
  Bool-cases, inl, inr, leb, ◌-◌, some,
}
use vyatta_rest.Text.{Str, codes, starts_with}
use vyatta_rest.Text.Find.{Lacks, Lacks-append}
use vyatta_rest.Text.Decimal.{
  signed_decimal, strtoul, strtoul-decimal, decimal-Lacks, decimal-ne-nil,
}
use vyatta_rest.Text.Map.{StrMap}
use vyatta_rest.Outcome.{done}
use vyatta_rest.StrProc.Fields.{
  IsField, NoStart, NoStart-append, NoStart-Lacks, join, str_proc-terminated, str_proc-join,
  All-weaken,
}
use vyatta_rest.Chunker.Manager as Daemon
use vyatta_rest.Chunker.Manager.{describe, list_processes}
use vyatta_rest.Chunker.Manager.Listing.{chosen, record_text, list_processes-terminated}
use vyatta_rest.MultiResp.{ProcessData, Peer, read_process, read_processes, processes_of}

-- A text that a field of a reply can carry.
pub record IsWord (f : Str) : Type 0 where
  pub not_empty : f ≢ []
  pub no_percent : Lacks b'%' f
  pub no_tilde : Lacks b'~' f
  pub no_tab : Lacks b'\t' f
  pub no_newline : Lacks b'\n' f

IsField-IsWord : (p f : Str) → IsWord f → IsField (b'%' ∷ p) f
IsField-IsWord p f w = record {
  not_empty = w.not_empty;
  no_start = NoStart-Lacks b'%' p f w.no_percent;
  no_tilde = w.no_tilde;
  no_tab = w.no_tab;
  no_newline = w.no_newline;
}

-- The listed process has fields that the reply can carry, and its start is printed with no sign.
pub record IsListable (p : Daemon.ProcessData) : Type 0 where
  pub start : p.start_time < 2 ^ 63
  pub command : IsWord p.command
  pub token : IsWord p.token
  pub user : IsWord p.user

-- What the server makes of a process of the daemon.
abbrev pub shown_process : Peer → Daemon.ProcessData → ProcessData
shown_process peer p = record {
  username = p.user;
  start_time = p.start_time;
  last_update = peer.unset;
  id = p.token;
  command = p.command;
}

abbrev fields : Daemon.ProcessData → List Str
fields p =
    signed_decimal p.start_time ∷ p.command ∷ p.token ∷ p.user ∷ signed_decimal p.read_offset ∷ []

record_text-join : (p : Daemon.ProcessData) → record_text p ≡ join (codes "%3A") (fields p)
unfolding record_text describe
record_text-join p = simp append_assoc

IsWord-signed_decimal : (n : ℕ) → IsWord (signed_decimal n)
unfolding signed_decimal
IsWord-signed_decimal n = elim (Bool-cases (leb (2 ^ 63) n)) [
  | inl e ↦ rw e (record {
    not_empty = λ q. cc;
    no_percent = (omega arith, decimal-Lacks b'%' (2 ^ 64 - n) refl);
    no_tilde = (omega arith, decimal-Lacks b'~' (2 ^ 64 - n) refl);
    no_tab = (omega arith, decimal-Lacks b'\t' (2 ^ 64 - n) refl);
    no_newline = (omega arith, decimal-Lacks b'\n' (2 ^ 64 - n) refl);
  })
  | inr e ↦ rw e (record {
    not_empty = decimal-ne-nil n;
    no_percent = decimal-Lacks b'%' n refl;
    no_tilde = decimal-Lacks b'~' n refl;
    no_tab = decimal-Lacks b'\t' n refl;
    no_newline = decimal-Lacks b'\n' n refl;
  })
]

separator-NoStart : NoStart (codes "%2C") (codes "%3A")
unfolding starts_with
separator-NoStart = (λ t. refl, (λ t. refl, (λ t. refl, tt)))

concat_ne_nil : (f s : Str) → f ≢ [] → f ++ s ≢ []
concat_ne_nil [] s h = absurd (h refl)
concat_ne_nil (x ∷ f) s h = λ q. cc

IsField-join :
    (fs : List Str) → fs ≢ [] → All IsWord fs → IsField (codes "%2C") (join (codes "%3A") fs)
IsField-join [] ne h = absurd (ne refl)
IsField-join (f ∷ []) ne h = IsField-IsWord (codes "2C") f h.0
IsField-join (f ∷ g ∷ fs) ne h =
    let rest = IsField-join (g ∷ fs) (λ q. cc) h.1 in
    let k = join (codes "%3A") (g ∷ fs) in
    let here = IsField-IsWord (codes "2C") f h.0 in
    record {
      not_empty = concat_ne_nil f _ here.not_empty;
      no_start =
          NoStart-append (codes "%2C") f (codes "%3A" ++ k) here.no_start
            (NoStart-append (codes "%2C") (codes "%3A") k separator-NoStart rest.no_start);
      no_tilde =
          Lacks-append b'~' f (codes "%3A" ++ k) here.no_tilde
            (Lacks-append _ (codes "%3A") k (omega arith) rest.no_tilde);
      no_tab =
          Lacks-append b'\t' f (codes "%3A" ++ k) here.no_tab
            (Lacks-append _ (codes "%3A") k (omega arith) rest.no_tab);
      no_newline =
          Lacks-append b'\n' f (codes "%3A" ++ k) here.no_newline
            (Lacks-append _ (codes "%3A") k (omega arith) rest.no_newline);
    }

words : (p : Daemon.ProcessData) → IsListable p → All IsWord (fields p)
words p h = (
  IsWord-signed_decimal p.start_time,
  (h.command, (h.token, (h.user, (IsWord-signed_decimal p.read_offset, tt)))),
)

IsField-record_text :
    (p : Daemon.ProcessData) → IsListable p → IsField (codes "%2C") (record_text p)
IsField-record_text p h = rw (record_text-join p) (IsField-join (fields p) (λ q. cc) (words p h))

strtoul-signed_decimal : (n : ℕ) → n < 2 ^ 63 → strtoul (signed_decimal n) ≡ n
unfolding signed_decimal
strtoul-signed_decimal n h =
    let small : leb (2 ^ 63) n ≡ false = ground arith in rw small (strtoul-decimal n (omega arith))

read_process-record_text :
    (peer : Peer) (p : Daemon.ProcessData)
    → IsListable p
    → read_process peer (record_text p) ≡ done (shown_process peer p)
unfolding read_process
read_process-record_text peer p h = rw (
  record_text-join p,
  str_proc-join b'%' (codes "3A") (omega arith) (omega arith) (omega arith) (fields p)
      (All-weaken (fields p) (IsField-IsWord (codes "3A")) (words p h)),
  strtoul-signed_decimal p.start_time h.start,
)

read_processes-map :
    (peer : Peer) (ps : List Daemon.ProcessData)
    → All IsListable ps
    → read_processes peer (map record_text ps) ≡ done (map (shown_process peer) ps)
unfolding read_processes
read_processes-map peer [] h = refl
read_processes-map peer (p ∷ ps) h =
    rw (read_process-record_text peer p h.0, read_processes-map peer ps h.1)

All-map {ℓ κ} :
    {A : Type ℓ} {B : Type ℓ} (P : A → Type κ) (Q : B → Type κ) (f : A → B) (xs : List A)
    → ((x : A) → P x → Q (f x))
    → All P xs
    → All Q (map f xs)
All-map P Q f [] k h = tt
All-map P Q f (x ∷ xs) k h = (k x h.0, All-map P Q f xs k h.1)

-- The server reads the daemon's list of processes as the chosen ones, in the order of the table,
-- each with its command, token and user and the time at which it started. Those three are not
-- empty and hold no '%', '~', tab or newline, and the start is below 2^63.
pub processes_of-list_processes :
    (peer : Peer) (shown : Daemon.ProcessData → Bool) (m : StrMap Daemon.ProcessData)
    → All IsListable (chosen shown m)
    → processes_of peer (some (list_processes shown m))
      ≡ done (map (shown_process peer) (chosen shown m))
unfolding processes_of
processes_of-list_processes peer shown m h = rw (
  list_processes-terminated shown m,
  str_proc-terminated b'%' (codes "2C") (omega arith) (omega arith) (omega arith)
      (map record_text (chosen shown m))
      (All-map IsListable (IsField (codes "%2C")) record_text (chosen shown m) IsField-record_text
        h),
  read_processes-map peer (chosen shown m) h,
)
