-- ===== src/Mtproto/Accept.antt =====
-- internal/mtproto: what happens to an accepted socket before its first frame.
pub mod ProxyHeader
pub mod Sampler
pub mod Framing
