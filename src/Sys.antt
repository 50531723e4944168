-- ===== src/Sys.antt =====
-- zeos/sys.c: the system calls.
pub mod Sem
pub mod Io
pub mod Pages
pub mod Process
pub mod Thread
