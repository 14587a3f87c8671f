-- ===== src/Scan.antt =====
-- agent_perimeter/scan_runner.py: the pipeline of a scan.
pub mod Setup
pub mod Runner
pub mod Cases
pub mod Ambiguous
pub mod Probes
pub mod Traffic
pub mod Acts
pub mod Answers
pub mod Session
pub mod Reports
pub mod Returns
mod Tests
