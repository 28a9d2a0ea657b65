-- ===== src/Threads.antt =====
-- lib/thread/thread.c: the threads, their queues and the scheduler. A thread is an identifier, and a
-- field of the threads is a function. The registers that `switch_to` saves and loads are assembly;
-- here the switch changes `current`, the thread that `tpidr_el1` names.
pub mod Defs
pub mod Ending
pub mod Search
pub mod Reap
pub mod Queues
pub mod System
pub mod Steps
pub mod Lifecycle
pub mod Spawn
pub mod Turns
pub mod Find
pub mod Reaper
pub mod Relabel
pub mod Sample
mod Tests
