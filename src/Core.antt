-- ===== src/Core.antt =====
-- The root package of the repository: one child for each of its files, and Contracts.
pub mod Identity
pub mod Action
pub mod Outcome
pub mod Event
pub mod Observation
pub mod Verification
pub mod Provider
pub mod Contracts
