-- ===== src/Store.antt =====
-- internal/store: the SQLite store of the forum.
pub mod Schema
pub mod Sql
pub mod Project
pub mod Queue
pub mod Stats
pub mod Scripts
pub mod Commands
pub mod Stable
pub mod Resend
pub mod Opening
mod Examples
pub mod Synced
pub mod Replay
pub mod Outbox
pub mod Reads
pub mod Runs
