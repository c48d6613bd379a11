-- ===== src/Queue.antt =====
-- The durable RCA job queue (backend/yield_rca_api/store.py, core/yield_rca_core/models.py).
pub mod Status
pub mod Records
pub mod Store
pub mod Workers
pub mod Failures
pub mod Clients
pub mod Moves
pub mod Effects
pub mod Invariant
pub mod Built
pub mod Recovery
pub mod Runs
pub mod Lifecycle
pub mod Histories
pub mod Leases
pub mod Claims
pub mod Exclusion
pub mod Idempotency
