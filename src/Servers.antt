-- ===== src/Servers.antt =====
-- apps/system and library/syscall/servers.c: the servers, and the functions that call them.
pub mod File
pub mod Process
pub mod Terminal
pub mod Directory
mod Examples
