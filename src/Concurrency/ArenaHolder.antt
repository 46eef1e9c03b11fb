-- ===== src/Concurrency/ArenaHolder.antt =====
-- Concurrency/Concurrency/WaitingTaskWithArenaHolder.h and its .cc file: holders that hand their
-- task over through a task arena, next to the holders of WaitingTaskHolder.h.
pub mod Defs
pub mod Holding
pub mod Ending
pub mod Counting
mod Tests
