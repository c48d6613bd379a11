-- ===== src/Causal.antt =====
-- The comparison of causal candidates: core/yield_rca_core/causal_candidate_comparison.py, and their gaps:
-- causal_evidence_gap.py beside it.
pub mod Scores
pub mod Comparison
pub mod Best
pub mod Bounded
pub mod Gaps
pub mod Covered
