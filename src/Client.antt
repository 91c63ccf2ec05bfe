-- ===== src/Client.antt =====
-- internal/cloudflare: the client of the Cloudflare API.
pub mod Pages
pub mod Rate
pub mod Send
pub mod Zones
pub mod Access
pub mod GraphQl
pub mod Headers
