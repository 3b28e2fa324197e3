-- ===== src/MultiResp/Shown.antt =====
-- get_processes of src/server/multirespcmd.cc against ChunkerManager::process of
-- src/server/chunker2_manager.cc, over the messages between them.
use vyatta_rest.Prelude.{
  ◌≡◌, ◌≢◌, refl, sym, ap, ◌∙◌, true, [], ◌∷◌, map, some, ◌<◌, length, lt→ltb, All, arith,
}
use vyatta_rest.Text.{Str, codes}
use vyatta_rest.Outcome.{done}
use vyatta_rest.Chunker.Message.{processes, query_message}
use vyatta_rest.Chunker.Message.Wire.{Plain}
use vyatta_rest.Chunker.Manager.{Manager, Host, answer, of_user, list_processes, process}
use vyatta_rest.Chunker.Manager.Requests.{query, process-encode}
use vyatta_rest.Chunker.Manager.Listing.{chosen}
use vyatta_rest.MultiResp.{Peer, exchange, get_processes, processes_of}
use vyatta_rest.MultiResp.Listing.{IsListable, shown_process, processes_of-list_processes}

exchange_lem :
    (peer : Peer) (user reply : Str)
    → length (query_message processes (codes "123456") user) < 1024
    → peer.accepts (query_message processes (codes "123456") user) ≡ true
    → peer.reply (query_message processes (codes "123456") user) ≡ some reply
    → exchange peer processes (codes "123456") user ≡ done (some reply)
unfolding exchange
exchange_lem peer user reply fits sent got = rw (lt→ltb _ _ fits, sent, got)

-- When the message fits its buffer and reaches a daemon, and what comes back is what the daemon
-- answers, get_processes returns exactly the user's processes of the daemon's table, in the table's
-- order, each with its user, token, command and start time. The user is not empty and holds no '<';
-- each of those processes has a start below 2^63, and a command, a token and a user that are not
-- empty and hold no '%', '~', tab or newline.
pub get_processes-process :
    (peer : Peer) (host : Host) (m : Manager) (user reply : Str)
    → user ≢ []
    → Plain user
    → length (query_message processes (codes "123456") user) < 1024
    → peer.accepts (query_message processes (codes "123456") user) ≡ true
    → peer.reply (query_message processes (codes "123456") user) ≡ some reply
    → (process host (query_message processes (codes "123456") user) m).1 ≡ answer reply ∷ []
    → All IsListable (chosen (of_user user) m.procs)
    → get_processes peer user ≡ done (map (shown_process peer) (chosen (of_user user) m.procs))
unfolding get_processes
get_processes-process peer host m [] reply ne pu fits sent got same h = absurd (ne refl)
get_processes-process peer host m (c ∷ user) reply ne pu fits sent got same h =
    let p123456 : Plain (codes "123456") = (
      (omega arith, (omega arith, (omega arith, (omega arith, (omega arith, (omega arith, tt)))))),
      omega arith,
    ) in
    let asked = process-encode host (query processes (codes "123456") (c ∷ user)) m (p123456, pu) in
    let said : (process host (query_message processes (codes "123456") (c ∷ user)) m).1
        ≡ answer (list_processes (of_user (c ∷ user)) m.procs) ∷ [] =
      ap (λ r. r.1) asked in
    let e : list_processes (of_user (c ∷ user)) m.procs ≡ reply = cc in
    rw (exchange_lem peer (c ∷ user) reply fits sent got) (
      ap (λ t. processes_of peer (some t)) (sym e)
      ∙ processes_of-list_processes peer (of_user (c ∷ user)) m.procs h)
