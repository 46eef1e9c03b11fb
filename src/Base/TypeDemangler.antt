-- ===== src/Base/TypeDemangler.antt =====
-- Base/src/TypeDemangler.cc: the demangled name of a type, rewritten to the conventions of REFLEX.
pub mod Defs
pub mod Finding
pub mod Replacing
pub mod Removing
pub mod Moving
mod Tests
