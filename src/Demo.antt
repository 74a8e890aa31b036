-- ===== src/Demo.antt =====
-- app/demo: the stores that stand in for the database.
pub mod MemoryRecs
pub mod MemoryReports
pub mod Examples
