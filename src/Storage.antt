-- ===== src/Storage.antt =====
-- internal/storage/sqlite.go: the agent's state in SQLite.
pub mod Tables
pub mod Rows
pub mod Deployments
pub mod Operations
pub mod Keys
pub mod Invariant
pub mod Exclusive
pub mod KeyStable
pub mod Schedule
pub mod Recorded
