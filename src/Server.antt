-- ===== src/Server.antt =====
-- internal/server: what the pages are built from.
pub mod Heartbeats
pub mod About
pub mod AuditPage
pub mod Cards
pub mod Origins
pub mod Page
pub mod Quality
pub mod Summary
pub mod Throttle
