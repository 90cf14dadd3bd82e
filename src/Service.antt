-- ===== src/Service.antt =====
-- What src/api.rs makes of uploads, the queue and the transport together.
pub mod Names
pub mod World
pub mod Submission
pub mod Finalization
pub mod Inputs
pub mod Commits
pub mod SafeNames
pub mod ObjectKeys
pub mod Apart
pub mod Clients
pub mod Acting
pub mod Lookups
pub mod Resolving
pub mod Resolved
pub mod Workers
pub mod Dispatched
mod WorkTests
pub mod AccountCalls
pub mod Tests
