-- ===== src/Retrieval.antt =====
-- The schema metadata and the prompt context of retrieval/.
pub mod Schema
pub mod Context
pub mod FkExpand
pub mod ColumnPrune
pub mod Hybrid
mod Tests
