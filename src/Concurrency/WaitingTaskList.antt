-- ===== src/Concurrency/WaitingTaskList.antt =====
-- Concurrency/Concurrency/WaitingTaskList.h and its .cc file: tasks that wait until their list is
-- told to hand them over.
pub mod Defs
pub mod System
pub mod Moves
pub mod Handing
mod Cache
mod Tests
