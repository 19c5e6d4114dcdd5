-- ===== src/Workspace.antt =====
-- src/claims/workspace.rs: the deterministic workspace view and the cache that it is assembled
-- from. `Types` has the data, `Fold` the folding of journal events into cards, `View` the derived
-- view, `Assemble` the entry points.
pub mod Types
pub mod Families
pub mod Fold
pub mod Bare
pub mod View
pub mod Assemble
pub mod Sidecar
