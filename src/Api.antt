-- ===== src/Api.antt =====
-- internal/api: the RPC layer above the connections.
pub mod DialogFilterSync
mod Tests
