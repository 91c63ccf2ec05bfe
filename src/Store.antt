-- ===== src/Store.antt =====
-- internal/store
pub mod Connectors
pub mod History
pub mod Ignores
pub mod Listing
pub mod Ingress
pub mod Inventory
pub mod Log
pub mod Logins
pub mod Origins
pub mod Samples
pub mod Tables
pub mod Tunnels
pub mod Uptime
