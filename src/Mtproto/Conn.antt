-- ===== src/Mtproto/Conn.antt =====
-- internal/mtproto/send.go: the state of one served connection.
pub mod Barrier
pub mod Recovery
pub mod Outcomes
pub mod Binding
