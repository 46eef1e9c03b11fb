-- ===== src/ControlFlow.antt =====
-- The sources of ControlFlow/: nodes that decide whether a transition goes on.
pub mod Status
pub mod Node
pub mod Graph
pub mod Operators
pub mod Requests
pub mod Arrivals
pub mod Sharing
pub mod Tree
mod Tests
