-- ===== src/Chunker/Manager/Requests.antt =====
-- A message of the server is handled as the request that it was made for
-- (ChunkerManager::process, src/server/chunker2_manager.cc).
use vyatta_rest.Prelude.{◌≡◌, ◌&&◌, List, [], ◌∷◌}
use vyatta_rest.Text.{Str, str_eq}
use vyatta_rest.Text.Map.{lookup}
use vyatta_rest.Chunker.Message.{
  Query, processes, details, next, delete, command_message, query_message,
}
use vyatta_rest.Chunker.Message.Wire.{
  Plain, token-command_message, statement-command_message, user-command_message,
  kind-command_message, token-query_message, user-query_message, kind_command, kind_process,
  kind_details, kind_next, kind_self,
}
use vyatta_rest.Chunker.Manager.{
  Manager, Host, Action, answer, of_user, list_processes, on_command, on_next, kill_process,
  dispatch, process,
}

pub data Request : Type 0 where
  command : Str → Str → Str → Request
  query : Query → Str → Str → Request

abbrev pub encode : Request → Str
encode (command tok cmd user) = command_message tok cmd user
encode (query q tok user) = query_message q tok user

abbrev pub IsPlain : Request → Type 0
IsPlain (command tok cmd user) = Plain tok × Plain cmd × Plain user
IsPlain (query q tok user) = Plain tok × Plain user

-- What each request asks for.
abbrev pub handle : Host → Request → Manager → Manager × List Action
handle host (command tok cmd user) m = on_command host tok cmd user (lookup tok m.procs) m
handle host (query processes tok user) m = (m, answer (list_processes (of_user user) m.procs) ∷ [])
handle host (query details tok user) m =
    (m, answer (list_processes (λ p. of_user user p && str_eq tok p.token) m.procs) ∷ [])
handle host (query next tok user) m = on_next host tok user (lookup tok m.procs) m
handle host (query delete tok user) m = kill_process host tok m

dispatch_query :
    (host : Host) (q : Query) (tok user : Str) (m : Manager)
    → Plain tok
    → Plain user
    → dispatch host (query_message q tok user) tok m ≡ handle host (query q tok user) m
unfolding dispatch
dispatch_query host processes tok user m pt pu = rw (
  kind_command tok user pt pu processes,
  user-query_message tok user pt pu processes,
  kind_self tok user pt pu processes,
)
dispatch_query host details tok user m pt pu = rw (
  kind_command tok user pt pu details,
  user-query_message tok user pt pu details,
  kind_process tok user pt pu details (λ e. cc),
  kind_self tok user pt pu details,
)
dispatch_query host next tok user m pt pu = rw (
  kind_command tok user pt pu next,
  user-query_message tok user pt pu next,
  kind_process tok user pt pu next (λ e. cc),
  kind_details tok user pt pu next (λ e. cc),
  kind_self tok user pt pu next,
)
dispatch_query host delete tok user m pt pu = rw (
  kind_command tok user pt pu delete,
  kind_process tok user pt pu delete (λ e. cc),
  kind_details tok user pt pu delete (λ e. cc),
  kind_next tok user pt pu delete (λ e. cc),
  kind_self tok user pt pu delete,
)

-- A message whose values hold no '<' is handled as the request that it encodes.
pub process-encode :
    (host : Host) (r : Request) (m : Manager)
    → IsPlain r
    → process host (encode r) m ≡ handle host r m
unfolding process
process-encode host (command tok cmd user) m (pt, pc, pu) =
    rw (token-command_message tok cmd user pt pc pu, process)
      (unfold dispatch in
        rw (
          kind-command_message tok cmd user pt pc pu,
          statement-command_message tok cmd user pt pc pu,
          user-command_message tok cmd user pt pc pu,
        ))
process-encode host (query q tok user) m (pt, pu) =
    rw (token-query_message tok user pt pu q, process) (dispatch_query host q tok user m pt pu)
