-- ===== src/Concurrency/Chain.antt =====
-- Concurrency/Concurrency/chain_first.h: chains of tasks, each started by the end of the one before.
pub mod Defs
pub mod Order
mod Tests
