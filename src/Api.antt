-- ===== src/Api.antt =====
-- agent_perimeter/api: the log of scan events that the server keeps.
pub mod Events
mod Tests
