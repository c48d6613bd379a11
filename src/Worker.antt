-- ===== src/Worker.antt =====
-- The job worker: backend/yield_rca_api/worker.py.
pub mod Faults
pub mod Modes
pub mod Transient
pub mod Once
pub mod Commits
pub mod Outcomes
pub mod Calls
pub mod Served
pub mod Selection
pub mod Mismatch
