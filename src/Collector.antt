-- ===== src/Collector.antt =====
-- internal/collector/collector.go: the collection cycle.
pub mod Api
pub mod Capabilities
pub mod Origins
pub mod Poll
pub mod Probes
pub mod Cycle
pub mod Logins
