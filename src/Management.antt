-- ===== src/Management.antt =====
-- The functions that an organization's people call: cloud/functions/src/authz.ts, shifts/,
-- branches/management.ts, departments/management.ts and employees/mapping.ts.
pub mod Access
pub mod Shifts
pub mod Assignments
pub mod Inferences
pub mod Branches
pub mod Mapping
pub mod Examples
mod Witnesses
pub mod Employees
pub mod Onboarding
