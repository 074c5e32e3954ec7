-- ===== src/Eventlog/Sqlite.antt =====
-- eventlog/sqlite/log.go: the durable log, over the engine of Eventlog.Database. A nil log, or one
-- with no handle, is `none`.
pub mod Opening
pub mod Appending
pub mod Beginning
pub mod Reading
pub mod RoundTrip
pub mod Represents
pub mod Kept
pub mod Appends
pub mod AppendAll
pub mod BeginAtomic
pub mod Claiming
pub mod Intents
pub mod Claimed
pub mod BeginAttempt
pub mod Readers
pub mod Runs
pub mod Reliable
pub mod ReliableBegin
