-- ===== src/Chunker/Manager/Listing.antt =====
-- Whose processes the daemon's answers show
-- (ChunkerManager::process, src/server/chunker2_manager.cc).
use vyatta_rest.Prelude.{
  ◌≡◌, ◌≢◌, refl, sym, ap, ◌∙◌, Bool, false, ◌&&◌, List, [], ◌∷◌, ◌++◌, map, some, arith,
  append_assoc, if◌then◌else◌, Bool-cases, inl, inr,
}
use vyatta_rest.Text.{Str, codes, str_eq}
use vyatta_rest.Text.Decimal.{signed_decimal}
use vyatta_rest.Text.Find.{str_eq_iff}
use vyatta_rest.Text.Map.{StrMap, lookup}
use vyatta_rest.StrProc.Fields.{terminated}
use vyatta_rest.Chunker.Message.{Query, processes, details, next, query_message}
use vyatta_rest.Chunker.Message.Wire.{Plain}
use vyatta_rest.Chunker.Manager.Requests.{process-encode, query}
use vyatta_rest.Chunker.Manager.{
  Manager, Host, answer, ProcessData, describe, list_processes, of_user, on_next, process,
}

-- The processes of the table that satisfy a test.
unfoldable pub chosen : (ProcessData → Bool) → StrMap ProcessData → List ProcessData
chosen shown [] = []
chosen shown ((k, p) ∷ rest) = if shown p then p ∷ chosen shown rest else chosen shown rest

-- The text of one process in a list.
unfoldable pub record_text : ProcessData → Str
record_text p = describe p ++ (codes "%3A" ++ signed_decimal p.read_offset)

pub list_processes-terminated :
    (shown : ProcessData → Bool) (m : StrMap ProcessData)
    → list_processes shown m ≡ terminated (codes "%2C") (map record_text (chosen shown m))
unfolding list_processes chosen record_text
list_processes-terminated shown [] = refl
list_processes-terminated shown ((k, p) ∷ rest) = elim (Bool-cases (shown p)) [
  | inl e ↦ rw (e, list_processes-terminated shown rest) (simp append_assoc)
  | inr e ↦ rw (e, list_processes-terminated shown rest)
]

pick : (ProcessData → Bool) → List ProcessData → List ProcessData
pick test [] = []
pick test (p ∷ ps) = if test p then p ∷ pick test ps else pick test ps

chosen-pick :
    (test more : ProcessData → Bool) (m : StrMap ProcessData)
    → chosen (λ p. test p && more p) m ≡ pick more (chosen test m)
unfolding chosen pick
chosen-pick test more [] = refl
chosen-pick test more ((k, p) ∷ rest) = ground (arith, chosen-pick test more rest)

-- Two tables with the same processes of a user give that user the same answers to `<process>` and
-- `<details>`, so nothing of another user's process shows, and `<details>` leaves the table as it
-- is. The token and the user hold no '<'.
pub answers_own :
    (host : Host) (tok user : Str) (m m' : Manager)
    → Plain tok
    → Plain user
    → chosen (of_user user) m.procs ≡ chosen (of_user user) m'.procs
    → (process host (query_message processes tok user) m).1
        ≡ (process host (query_message processes tok user) m').1
      × ((process host (query_message details tok user) m).1
          ≡ (process host (query_message details tok user) m').1)
      × ((process host (query_message details tok user) m).0 ≡ m)
answers_own host tok user m m' pt pu same =
    let asked = λ (q : Query) (n : Manager). process-encode host (query q tok user) n (pt, pu) in
    (
      ap (λ r. r.1) (asked processes m)
          ∙ ap (λ s. answer s ∷ []) (own (of_user user) same)
          ∙ sym (ap (λ r. r.1) (asked processes m')),
      ap (λ r. r.1) (asked details m)
          ∙ ap (λ s. answer s ∷ [])
              (own (λ p. of_user user p && str_eq tok p.token)
                (chosen-pick (of_user user) (λ p. str_eq tok p.token) m.procs
                  ∙ ap (pick (λ p. str_eq tok p.token)) same
                  ∙ sym (chosen-pick (of_user user) (λ p. str_eq tok p.token) m'.procs)))
          ∙ sym (ap (λ r. r.1) (asked details m')),
      ap (λ r. r.0) (asked details m),
    )
  where
    own :
        (shown : ProcessData → Bool)
        → chosen shown m.procs ≡ chosen shown m'.procs
        → list_processes shown m.procs ≡ list_processes shown m'.procs
    own shown e =
        list_processes-terminated shown m.procs
        ∙ ap (λ ps. terminated (codes "%2C") (map record_text ps)) e
        ∙ sym (list_processes-terminated shown m'.procs)

refused :
    (host : Host) (tok user : Str) (m : Manager) (p : ProcessData)
    → str_eq user p.user ≡ false
    → on_next host tok user (some p) m ≡ (m, answer [] ∷ [])
unfolding on_next
refused host tok user m p e = rw e

-- A `<next>` for a known process of another user is answered with nothing, and changes nothing.
-- The token and the user hold no '<'.
pub next_foreign :
    (host : Host) (tok user : Str) (m : Manager) (p : ProcessData)
    → Plain tok
    → Plain user
    → lookup tok m.procs ≡ some p
    → user ≢ p.user
    → process host (query_message next tok user) m ≡ (m, answer [] ∷ [])
next_foreign host tok user m p pt pu known ne =
    process-encode host (query next tok user) m (pt, pu)
    ∙ ap (λ o. on_next host tok user o m) known
    ∙ refused host tok user m p (ground (arith, str_eq_iff user p.user))
