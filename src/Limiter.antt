-- ===== src/Limiter.antt =====
-- The budgets for sending email: `EmailSendRateLimiter` of src/rate_limit.rs.
pub mod Windows
pub mod Sends
pub mod Budgets
pub mod Maps
pub mod Live
pub mod Kept
pub mod Recorded
pub mod Admission
pub mod Answers
mod Tests
