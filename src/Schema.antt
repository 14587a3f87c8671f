-- ===== src/Schema.antt =====
-- The schema checks of agent_perimeter/checks/revision.
pub mod Pointer
pub mod Walk
pub mod Composition
mod Tests
