-- ===== src/Exchange.antt =====
-- What passes between the server and an agent: a command that services/response.py queues, the check-in that
-- delivers it, the agent's handling of it and the telemetry that reports its result.
pub mod Actions
pub mod Network
pub mod Blocklist
mod Tests
