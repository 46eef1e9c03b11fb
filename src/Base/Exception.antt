-- ===== src/Base/Exception.antt =====
-- Base/Base/Exception.h and Base/src/Exception.cc.
pub mod Defs
pub mod Message
pub mod Explanation
mod Tests
