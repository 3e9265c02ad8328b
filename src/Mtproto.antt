-- ===== src/Mtproto.antt =====
-- internal/mtproto: connections, their registry, their limits and how they are accepted.
pub mod Conn
pub mod Limits
pub mod Registry
pub mod Accept
mod Tests
