-- ===== src/Checks.antt =====
-- Runs on concrete data, and applications of the theorems at them.
pub mod Data
pub mod Engine
pub mod Sqlite
pub mod Memory
pub mod Projection
pub mod Execution
pub mod Inspection
pub mod Verification
pub mod Contracts
pub mod Http
pub mod HomeAssistant
pub mod Server
