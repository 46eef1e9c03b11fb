-- ===== src/Concurrency/AddOnlyContainer.antt =====
-- Concurrency/Concurrency/ThreadSafeAddOnlyContainer.h.
pub mod Defs
pub mod Invariant
pub mod Holding
pub mod Nodes
pub mod System
mod Tests
