-- ===== src/Base.antt =====
-- The sources of Base/.
pub mod Exception
pub mod TypeDemangler
