-- ===== src/Relate.antt =====
-- src/relate/heuristic.rs: conflict detection between current claims.
pub mod Signals
pub mod Detect
pub mod Pair
pub mod Report
pub mod Complete
