-- ===== src/Tus.antt =====
-- The handlers of resumable uploads in src/api/tus.rs.
pub mod Requests
pub mod Handlers
pub mod Metadata
pub mod Creation
pub mod Patching
pub mod Access
pub mod Created
mod Tests
pub mod Completion
