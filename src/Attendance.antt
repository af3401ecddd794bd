-- ===== src/Attendance.antt =====
-- The attendance calculation: cloud/functions/src/attendance/.
pub mod Types
pub mod Clock
pub mod Window
pub mod Selection
pub mod Minutes
pub mod Overtime
pub mod Adjustments
pub mod Exceptions
pub mod Engine
pub mod Examples
mod Witnesses
pub mod Inference
