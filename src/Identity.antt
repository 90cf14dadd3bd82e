-- ===== src/Identity.antt =====
-- Accounts, sign-in challenges, sessions, passkeys and API keys as rows: src/identity.rs and
-- src/sqlx_identity.rs.
pub mod Rows
pub mod Tables
pub mod Accounts
pub mod Challenges
pub mod Sessions
pub mod Passkeys
pub mod Keys
pub mod Calls
pub mod Stability
pub mod Runs
pub mod Spent
pub mod Attempts
pub mod Tests
