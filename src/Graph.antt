-- ===== src/Graph.antt =====
-- agent_perimeter/graph and agent_perimeter/checks/injection/path_proof.py: what each tool can do,
-- and what that means for an agent that holds them all.
pub mod Build
pub mod Policy
pub mod Paths
mod Tests
