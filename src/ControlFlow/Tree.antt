-- ===== src/ControlFlow/Tree.antt =====
-- Trees of decision nodes: how a tree is built, run, and what it decides.
pub mod Defs
pub mod Within
pub mod Moves
pub mod Refusing
pub mod Idle
pub mod Phases
pub mod Deciding
pub mod Outcome
pub mod Building
pub mod Answers
pub mod Formula
mod Tests
