-- ===== src/Web.antt =====
-- The web application: web/src/lib/data/reporting.ts.
pub mod Reporting
