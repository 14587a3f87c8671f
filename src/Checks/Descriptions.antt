-- ===== src/Checks/Descriptions.antt =====
-- agent_perimeter/checks/descriptions: the deterministic detectors over tool names and descriptions.
pub mod Unicode
pub mod Imperative
