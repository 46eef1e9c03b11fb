-- ===== src/Concurrency/LimitedTaskQueue.antt =====
-- Concurrency/Concurrency/LimitedTaskQueue.h.
pub mod Resumer
pub mod Actions
pub mod Once
pub mod Limits
pub mod Pausing
mod Tests
mod ActionTests
