-- ===== src/Concurrency/WaitingTask.antt =====
-- Concurrency/Concurrency/{TaskBase, WaitingTask, WaitingTaskHolder}.h: tasks that wait for their
-- holders.
pub mod Defs
pub mod Failure
pub mod Holding
pub mod Counting
pub mod Keeping
pub mod Interleaving
pub mod Reporting
pub mod Moves
pub mod Spawning
mod SpawningTests
mod Tests
