-- ===== src/Auth.antt =====
-- Authentication (src/server/authenticate.cc, authbase.hh, authbasic.cc, authsession.cc).
pub mod Accounts
pub mod Basic
pub mod Lock
pub mod Session
