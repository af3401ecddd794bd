-- ===== src/Recalculation.antt =====
-- Recalculating a day of attendance from the documents: cloud/functions/src/attendance/recalculation.ts
-- and recalculation-jobs.ts.
pub mod Fields
pub mod Events
pub mod Context
pub mod Load
pub mod Run
pub mod Written
pub mod Memory
pub mod Examples
mod Witnesses
pub mod Jobs
