-- ===== src/Ingest.antt =====
-- The ingestion of device events: cloud/functions/src/ingest/.
pub mod Types
pub mod Protocol
pub mod Classify
pub mod Service
pub mod Sessions
pub mod Repository
pub mod Writes
pub mod Commands
pub mod Delivery
pub mod Examples
mod Witnesses
