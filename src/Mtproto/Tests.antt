-- ===== src/Mtproto/Tests.antt =====
-- Runs of the connection state, the limits, the registry and the acceptance of a socket.
mod ConnTests
mod LimitTests
mod AcceptTests
mod BudgetTests
