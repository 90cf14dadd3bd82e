-- ===== src/Region.antt =====
-- The picture inside an image with flat edges: src/content_region.rs.
pub mod Find
pub mod Bands
mod Tests
