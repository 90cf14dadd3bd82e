-- ===== src/Accounts.antt =====
-- The authentication service of src/auth.rs over the tables of Identity.
pub mod Secrets
pub mod Tokens
pub mod EmailSignIn
pub mod Authentic
pub mod Proofs
pub mod PasskeySignIn
pub mod PasskeyAuthentic
pub mod BrowserSessions
pub mod ApiKeys
pub mod Astrometry
pub mod Recycling
pub mod Revocation
pub mod Tests
