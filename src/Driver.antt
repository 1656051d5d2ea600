-- ===== src/Driver.antt =====
-- The driver, drivers/net/ethernet/realtek/r8169_main.c and r8169.h, by its parts.
pub mod Ports
pub mod SkbQueue
pub mod Pq
pub mod RtPoll
pub mod Rings
pub mod Rx
pub mod Tx
pub mod NonRt
pub mod Device
pub mod Interrupt
pub mod Poll
pub mod Reset
pub mod Sending
