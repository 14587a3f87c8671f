-- ===== src/Drift.antt =====
-- agent_perimeter/drift/compare.py: what changed between two listings of one target.
pub mod Digits
pub mod Keys
pub mod Compare
mod Tests
