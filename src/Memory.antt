-- ===== src/Memory.antt =====
-- The publication of confirmed RCA memories under dual control: backend/yield_rca_api/memory.py with
-- the records of core/yield_rca_core/memory_models.py.
pub mod Models
pub mod Approvals
pub mod DualControl
pub mod Runs
pub mod Published
