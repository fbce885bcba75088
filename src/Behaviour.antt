-- ===== src/Behaviour.antt =====
-- services/behaviour-analysis: the Behaviour Analysis Engine.
pub mod Stats
pub mod Confidence
pub mod Detection
pub mod Baselines
pub mod Handler
