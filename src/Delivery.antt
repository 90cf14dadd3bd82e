-- ===== src/Delivery.antt =====
-- How a job's id travels to a worker: src/transport.rs and the queue polling of src/worker.rs.
pub mod Routing
pub mod Polling
pub mod Groups
pub mod Turns
mod Tests
