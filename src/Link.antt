-- ===== src/Link.antt =====
-- internal/linkselector and internal/linklanding: which requests of the link host reach the web client,
-- and what the others are answered.
pub mod Target
pub mod Landing
pub mod Headers
pub mod Serve
mod Tests
