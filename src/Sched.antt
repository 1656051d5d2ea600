-- ===== src/Sched.antt =====
-- Tasks and their priorities, kernel/sched/core.c.
pub mod Task
pub mod Setscheduler
pub mod Abi
pub mod Calls
pub mod Priority
