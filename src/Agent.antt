-- ===== src/Agent.antt =====
-- The endpoint agent, agent/silentguard_agent.
pub mod Buffer
pub mod Update
pub mod Quarantine
pub mod State
pub mod Commands
pub mod Loop
pub mod ArpGuard
pub mod FileDrop
pub mod Sinkhole
mod Tests
