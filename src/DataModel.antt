-- ===== src/DataModel.antt =====
-- The sources of DataModel/, and Base/Base/TypeIDBase.h on which its keys stand.
pub mod Keys
pub mod Index
