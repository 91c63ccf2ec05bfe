-- ===== src/Audit.antt =====
-- The audits that run beside the collection cycle.
pub mod Access
pub mod Alerts
pub mod Logins
