-- ===== src/Ingestion.antt =====
-- Ingestion jobs: the records of connector runs, what an operator may do with them, and the worker
-- that runs them, takes over what a connector discovers and retries what failed.
pub mod Jobs
pub mod Transitions
pub mod Operators
pub mod Operations
pub mod Replayed
pub mod Discovery
pub mod Technical
pub mod Synchronize
pub mod Apply
pub mod Worker
pub mod Retries
