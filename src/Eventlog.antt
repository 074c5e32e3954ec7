-- ===== src/Eventlog.antt =====
-- The directory eventlog: event logs that serve as journals.
pub mod Fact
pub mod Memory
pub mod Rows
pub mod Database
pub mod Sqlite
