-- ===== src/Extract.antt =====
-- src/extract/: which lines become claims and what they hint at, and what guards the claims that a
-- model proposes.
pub mod Faithfulness
pub mod Heuristics
pub mod Hints
