-- ===== src/Questions.antt =====
-- The questions of an investigation and what answers them: core/yield_rca_core/question_capability.py,
-- question_evidence.py and question_update_review.py beside it.
pub mod Kinds
pub mod Registry
pub mod Models
pub mod Scope
pub mod Gate
pub mod Links
pub mod Decisions
pub mod Verdicts
pub mod Review
pub mod Justified
pub mod Judged
pub mod Reviewed
pub mod Outcomes
pub mod Fillable
pub mod Progress
pub mod Grounded
pub mod Stuck
pub mod Gains
pub mod Registered
pub mod Terminal
pub mod Sets
pub mod Accepted
pub mod Settled
pub mod Proposed
pub mod Codec
pub mod Roundtrip
