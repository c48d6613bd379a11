-- ===== src/Tests.antt =====
-- Concrete runs of the models, and the theorems at inputs that meet their hypotheses.
mod Queue
mod Policy
mod Evidence
mod Memory
mod Plan
mod Worker
mod Spc
mod Causal
mod Questions
