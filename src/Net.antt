-- ===== src/Net.antt =====
-- The network core, kernel-jammy-src/net/core/dev.c, by its parts.
pub mod Glue
pub mod Ids
pub mod Instance
pub mod RxAction
pub mod Tids
