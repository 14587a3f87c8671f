-- ===== src/Model.antt =====
-- agent_perimeter/model: the domain types.
pub mod Excerpt
pub mod Feature
pub mod Scope
pub mod Snapshot
mod Tests
