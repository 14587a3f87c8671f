-- ===== src/Instrument.antt =====
-- agent_perimeter/instrument: the proxy that records an agent's session with a server.
pub mod Patterns
pub mod Redact
pub mod Recorder
pub mod Transcript
pub mod Proxy
pub mod Serve
mod Tests
