-- ===== src/Evidence.antt =====
-- `EvidenceCollection` of core/yield_rca_core/evidence_collection.py.
pub mod Collection
pub mod Merge
pub mod Staging
