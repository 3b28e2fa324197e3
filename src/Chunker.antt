-- ===== src/Chunker.antt =====
-- The background command daemon (src/server/chunker2_*.cc): the messages on its socket, its process
-- table, and the command line that it runs.
pub mod Message
pub mod Manager
pub mod Processor
pub mod Daemon
