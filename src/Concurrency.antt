-- ===== src/Concurrency.antt =====
-- The sources of Concurrency/.
pub mod SerialTaskQueue
pub mod WaitingTask
pub mod AddOnlyContainer
pub mod ArenaHolder
pub mod Chain
pub mod WaitingTaskList
pub mod LimitedTaskQueue
pub mod QueueChain
