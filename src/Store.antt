-- ===== src/Store.antt =====
-- internal/store: limits that the database keeps.
pub mod IpBucket
pub mod RateLimit
pub mod SendCode
pub mod Codes
pub mod SignInFail
pub mod UsernameLookups
pub mod Invites
mod Tests
mod LoginTests
