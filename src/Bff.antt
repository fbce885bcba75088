-- ===== src/Bff.antt =====
-- services/api-bff: the API behind the dashboard.
pub mod Auth
pub mod Actions
pub mod Dashboard
pub mod Policies
pub mod Alerts
