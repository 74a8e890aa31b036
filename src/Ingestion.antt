-- ===== src/Ingestion.antt =====
-- app/ingestion: the plant's data, in and out.
pub mod TagMap
pub mod Quality
pub mod Freshness
pub mod OpcuaWrite
pub mod Session
pub mod Examples
