-- ===== src/Decision.antt =====
-- services/decision-policy: the Decision & Policy Engine.
pub mod Authority
pub mod Policy
pub mod Matching
pub mod Correlation
pub mod Handler
