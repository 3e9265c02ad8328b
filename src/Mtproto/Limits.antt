-- ===== src/Mtproto/Limits.antt =====
-- internal/mtproto: the bounds on the connections that have not signed in.
pub mod Counters
pub mod FixedWindow
pub mod Discovery
pub mod Unimplemented
pub mod PreAuth
pub mod UnboundKey
pub mod PendingLogin
