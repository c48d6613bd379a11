-- ===== src/Plan.antt =====
-- The fixed task plan: `TaskPlan` of core/yield_rca_core/models.py and `Supervisor.execute` of
-- core/yield_rca_core/supervisor.py.
pub mod Graph
pub mod Order
pub mod Search
pub mod Ranks
pub mod Acyclic
pub mod Validation
pub mod Execute
pub mod Steps
pub mod Rounds
pub mod Progress
pub mod Completion
pub mod Codec
pub mod Roundtrip
