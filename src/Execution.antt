-- ===== src/Execution.antt =====
-- The directory execution: the use cases of the application.
pub mod Authorization
pub mod Payload
pub mod Ports
pub mod Events
pub mod Attempt
pub mod Execute
pub mod Setup
pub mod Protocol
pub mod Kinds
pub mod Filed
pub mod Filing
pub mod Told
pub mod Agreeing
pub mod Agreement
pub mod Query
pub mod Recovery
pub mod Naming
pub mod Recovered
pub mod Inspect
pub mod Spending
pub mod Once
pub mod Evidence
pub mod Assessing
pub mod Verify
pub mod Telling
pub mod Assessed
pub mod VerifyFiling
pub mod VerifyRecords
pub mod VerifyGuards
pub mod Silence
pub mod VerifyNeutral
pub mod Reading
pub mod Recovering
pub mod MemoryJournal
