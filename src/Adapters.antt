-- ===== src/Adapters.antt =====
-- services/traffic-adapter and services/security-signal-adapter.
pub mod Traffic
pub mod Security
