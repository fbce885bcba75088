-- ===== src/Collector.antt =====
-- services/collector: the agent on each node.
pub mod Resolver
pub mod Kubelet
pub mod Events
pub mod Cycle
pub mod Watch
