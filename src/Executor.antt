-- ===== src/Executor.antt =====
-- services/remediation-executor: the Remediation Executor.
pub mod Cluster
pub mod Service
pub mod Actions
pub mod Limits
pub mod Handler
