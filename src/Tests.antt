-- ===== src/Tests.antt =====
-- Concrete inputs for each component, and what the theorems say of them.
pub mod Data
mod Driver
mod Rings
mod Framework
mod Sched
mod Net
mod System
mod Opened
mod Race
mod Poll
mod Reset
mod Sending
mod Ids
mod Calls
mod Priority
