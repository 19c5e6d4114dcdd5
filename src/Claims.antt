-- ===== src/Claims.antt =====
-- src/claims/: the projections that replay folds from the journal, one card to an entity.
pub mod Card
pub mod Conflict
pub mod Source
pub mod Status
pub mod Walk
pub mod Settlement
pub mod Logs
