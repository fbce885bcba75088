-- ===== src/Simulator.antt =====
-- services/workload-simulator: the workload of the demo and its load generator.
pub mod Victim
pub mod Loadgen
