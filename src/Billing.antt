-- ===== src/Billing.antt =====
-- Plans, entitlements and payments: cloud/functions/src/billing/.
pub mod Catalog
pub mod Entitlements
pub mod Webhook
pub mod Handler
mod Witnesses
