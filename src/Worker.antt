-- ===== src/Worker.antt =====
-- daemon/src/worker.rs: the task that owns one database.
pub mod State
pub mod Sqlite
pub mod Validate
pub mod Database
pub mod Batch
pub mod Handlers
pub mod Loop
mod Examples
