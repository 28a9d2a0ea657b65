-- ===== src/Syscalls.antt =====
-- lib/exception/syscall.c: the table of system calls, its dispatch, and the calls.
pub mod Calls
pub mod Child
pub mod Fork
pub mod Forked
pub mod Table
pub mod Kill
mod Tests
