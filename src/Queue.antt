-- ===== src/Queue.antt =====
-- The durable job queue: `SqlxJobRepository` of src/repository.rs. Each method is one database
-- transaction, so it is a function from the tables to its result and the tables after it; times
-- and fresh lease tokens are arguments.
pub mod Rows
pub mod Sql
pub mod Scheduler
pub mod Leases
pub mod Jobs
pub mod Updates
pub mod Lookup
pub mod Calls
pub mod Invariant
pub mod Lifecycle
pub mod History
pub mod Exclusion
pub mod Grants
pub mod Selection
pub mod Lookups
pub mod Reports
pub mod Sorting
pub mod Tests
