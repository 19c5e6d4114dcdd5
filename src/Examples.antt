-- ===== src/Examples.antt =====
-- Concrete journals, cards and topologies, and the theorems at them.
mod Data
mod Replays
mod Cards
mod Reads
mod Topologies
mod Conflicts
mod Sidecars
mod Evidence
mod Scores
mod Semantics
mod Tokens
mod Plans
mod Grounding
mod Hints
