-- ===== src/Spc.antt =====
-- The control charts: core/yield_rca_core/spc_engine.py and spc_models.py.
pub mod Samples
pub mod Rules
pub mod Windows
pub mod Violations
