-- ===== src/Pipeline/Undoing.antt =====
-- A throttle that the executor carried out, and the rollback of it that a person asked for through
-- the API, on the ledger that they share.
pub mod Carried
pub mod Undone
pub mod Restored
