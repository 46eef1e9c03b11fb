-- ===== src/Concurrency/SerialTaskQueue.antt =====
-- Concurrency/Concurrency/SerialTaskQueue.h and Concurrency/src/SerialTaskQueue.cc.
pub mod Defs
pub mod System
pub mod Invariant
pub mod Moves
pub mod Steps
pub mod Safety
pub mod Pausing
pub mod ListQueue
pub mod LateStart
mod Tests
