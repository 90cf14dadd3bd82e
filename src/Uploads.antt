-- ===== src/Uploads.antt =====
-- Resumable uploads: src/uploads.rs over the object store of src/storage.rs.
pub mod Storage
pub mod Keys
pub mod Session
pub mod Reading
pub mod Removal
pub mod Soundness
pub mod Contents
pub mod Roundtrip
pub mod Memory
mod Tests
