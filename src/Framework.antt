-- ===== src/Framework.antt =====
-- The loadable modules and system calls of CROS-RT, kernel-jammy-src/ros2_framework.
pub mod Threads
pub mod NonRtPl
pub mod NonRt
pub mod Syscalls
pub mod RtHandler
