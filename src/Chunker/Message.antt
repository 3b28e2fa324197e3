-- ===== src/Chunker/Message.antt =====
-- The messages between the REST server and the daemon: the CHUNKER_*_FORMAT strings of
-- src/server/common.cc, and how ChunkerManager::process (src/server/chunker2_manager.cc) reads them.
pub mod Wire
use vyatta_rest.Prelude.{
  [], ℕ, ◌+◌, ◌-◌, ◌%◌, ◌^◌, Bool, List, ◌++◌, Option, none, some, length, take, drop,
}
use vyatta_rest.Text.{Str, codes, find}

-- What stands between two tags: `substr(start + n, stop - start - n)`, where a `stop` in front of
-- the opening tag makes the unsigned count wrap.
between_at : Str → ℕ → Option ℕ → Option ℕ → Option Str
between_at s n none stop = none
between_at s n (some start) none = none
between_at s n (some start) (some stop) =
    some (take ((stop + 2 ^ 64 - (start + n)) % 2 ^ 64) (drop (start + n) s))

unfoldable pub between : Str → Str → Str → Option Str
unfolding between_at
between open_tag close_tag s = between_at s (length open_tag) (find open_tag s) (find close_tag s)

abbrev pub or_empty : Option Str → Str
or_empty none = []
or_empty (some s) = s

-- `token`, with which a message is ignored if it is missing, `statement` and `user`.
unfoldable pub message_token : Str → Option Str
unfolding between
message_token = between (codes "<token>") (codes "</token>")

unfoldable pub message_statement : Str → Str
unfolding between
message_statement s = or_empty (between (codes "<statement>") (codes "</statement>") s)

unfoldable pub message_user : Str → Str
unfolding between
message_user s = or_empty (between (codes "<user>") (codes "</user>") s)

-- CHUNKER_COMMAND_FORMAT
abbrev pub command_message : Str → Str → Str → Str
command_message tok cmd user =
    codes "<vyatta><command><token>"
    ++ (tok
        ++ (codes "</token><statement>"
            ++ (cmd
                ++ (codes "</statement><user>" ++ (user ++ codes "</user></command></vyatta>")))))

-- CHUNKER_PROCESS_FORMAT, CHUNKER_DETAILS_FORMAT, CHUNKER_NEXT_FORMAT and CHUNKER_DELETE_FORMAT
pub data Query : Type 0 where
  processes details next delete : Query

abbrev pub query_tag : Query → Str
query_tag processes = codes "process"
query_tag details = codes "details"
query_tag next = codes "next"
query_tag delete = codes "delete"

abbrev pub query_message : Query → Str → Str → Str
query_message q tok user =
    codes "<vyatta><"
    ++ (query_tag q
        ++ (codes "><token>"
            ++ (tok
                ++ (codes "</token><user>"
                    ++ (user ++ (codes "</user></" ++ (query_tag q ++ codes "></vyatta>")))))))
