-- ===== src/Concurrency/QueueChain.antt =====
-- Concurrency/Concurrency/SerialTaskQueueChain.h.
pub mod Defs
pub mod Moves
pub mod Counting
pub mod Turns
mod Tests
