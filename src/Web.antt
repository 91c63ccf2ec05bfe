-- ===== src/Web.antt =====
-- internal/web: how the pages name and colour what they show.
pub mod Labels
pub mod Formats
pub mod Links
mod Tests
