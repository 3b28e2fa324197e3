-- ===== src/Lib.antt =====
-- vyatta-rest, the REST server of a router (src/server/*.cc), as shallow embeddings and their theorems.
--
-- The FastCGI process (src/server/main.cc) reads a request into a Session, authenticates it, and
-- dispatches it by the root of its path to a mode. The modes run scripts, ask configd and opd, or
-- talk over a socket to a second process, the chunker daemon (src/server/chunker2_*.cc), which runs
-- operational commands in the background and keeps a table of them.
--
-- Files and code:
--   Prelude, Text, Outcome: numbers, lists, std::string and std::map, and how a call can end
--     (a value, an uncaught exception, undefined behaviour, or no fuel left).
--   Rest, StrProc: src/server/common.{hh,cc} and rl_str_proc.cc. mass_replace, trim,
--     translate_rest_to_cli, the constants, and the splitting of a text at a separator; Rest.Token is
--     generate_token, Rest.Modify the modify files over the directory `TmpDir`, Rest.Execute the
--     running of a command and mkdir_p.
--   Json, Http: src/server/http.{hh,cc}. Classes JSON, HTTP, Session and Error.
--   Chunker: src/server/chunker2_manager.{hh,cc}. Message is the format of the messages, Manager the
--     handling of one message by the state `Manager`, with `Host` for what the handler reads from the
--     system and a list of actions for what it does to it. Processor is chunker2_processor.cc, Daemon
--     is chunker2_main.cc with the socket side of the manager: a run is a list of rounds, each with
--     what it meets.
--   MultiResp: src/server/multirespcmd.cc, the server's side of the socket; `Peer` is the daemon.
--   Auth: src/server/authsession.cc and authbasic.cc. The session file, its copy and its lock are the
--     record `Files`; accounts, PAM and the base64 decoder are parameters.
--   Mode: src/server/mode.cc, appmode.cc, servicemode.cc and permissions.cc, over a world that
--     the record `System` acts on, where Mode.Child is how its field `system_out` runs a command;
--     Mode.Op is opmode.cc, over the daemon as a sequence of peers and a list of effects.
--     Mode.Conf is confmode.cc, over the modify files and the list of calls that are made on
--     configuration sessions, with a module for each method (Listing and Describe for GET, Edit
--     for PUT, Command for POST) and Process for the whole; `ConfHost` is configd and the shell.
--   Configuration: src/server/configuration.{hh,cc}. Entries and Template read the template of a node
--     (their lemmas are in Read), Operational that of opd, States the state and the children of a
--     node, over the records `Configd` and `Opd`. `get_configured_node` is what fills the field of
--     `ConfHost`.
--   Server: src/server/main.cc, authenticate.cc, process.cc and command.cc. The modes are the record
--     `Modes` of handlers over a world.
--   Tests: each result at a concrete input.
--
-- Bounds and fuel: unsigned longs wrap at 2^64 where the source computes with them. The loops of
-- mass_replace and StrProc run on fuel, one more than the length of the text, and the theorems show
-- that it is enough. The loops of service_index and generate_token run on any fuel, since they need
-- not end; mkdir_p has as many rounds as its path has bytes, and each call is on a shorter path.
--
-- Parameters: jansson, PAM, OpenSSL, the account database, the clock, the file system, the shell and
-- the daemons configd and opd, whose answers during a request are functions of what they are asked.
-- Not modelled: the start and the logs of the processes (fork of main, signals, syslog), and the
-- caches of configuration.hh, which nothing uses.
pub mod Configuration
pub mod Prelude
pub mod Text
pub mod Outcome
pub mod Rest
pub mod StrProc
pub mod Json
pub mod Http
pub mod Chunker
pub mod MultiResp
pub mod Auth
pub mod Mode
pub mod Server
pub mod Tests
