-- ===== src/Policy.antt =====
-- The deterministic policy of controlled investigations: core/yield_rca_core/investigation_policy.py
-- with the records of core/yield_rca_core/investigation_models.py.
pub mod Kinds
pub mod Models
pub mod Rules
pub mod Decisions
pub mod Sound
pub mod Choice
pub mod Dispatch
pub mod Loop
pub mod Budget
