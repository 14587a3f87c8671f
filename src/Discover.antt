-- ===== src/Discover.antt =====
-- agent_perimeter/discover/enumerate.py: which tools a server exposes.
pub mod Parse
pub mod Merge
pub mod Paging
mod Tests
