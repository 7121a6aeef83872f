-- ===== src/Server.antt =====
-- The management server, server/app.
pub mod Models
pub mod Objects
pub mod Exec
pub mod Access
pub mod Plans
pub mod Auth
pub mod NetMatch
pub mod Intel
pub mod Response
pub mod Policy
pub mod Fleet
pub mod Detection
pub mod Users
pub mod Console
pub mod Sigma
mod Tests
