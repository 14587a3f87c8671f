-- ===== src/Checks.antt =====
-- agent_perimeter/checks: which checks run, and what a check may reach.
pub mod Registry
pub mod Context
pub mod Run
pub mod Descriptions
mod Tests
