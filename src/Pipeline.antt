-- ===== src/Pipeline.antt =====
-- The services composed: what one publishes is what the next one handles.
pub mod Advisory
pub mod Answers
pub mod Billing
pub mod Deliveries
pub mod Trail
pub mod Undoing
