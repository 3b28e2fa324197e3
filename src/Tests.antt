-- ===== src/Tests.antt =====
-- Each result of the development at a concrete input at which its hypotheses hold.
mod Words
mod Texts
mod Daemon
mod Logins
mod Configuring
mod Commands
mod Serving
