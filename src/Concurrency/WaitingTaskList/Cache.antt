-- ===== src/Concurrency/WaitingTaskList/Cache.antt =====
-- Concurrency/Concurrency/WaitingTaskList.h and its .cc file: where the nodes of a list come from.
mod Defs
mod Links
mod Growing
mod Keeping
mod Walking
mod Tests
