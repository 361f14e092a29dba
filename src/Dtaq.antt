-- ===== src/Dtaq.antt =====
-- The package dtaq: data queues.
pub mod Wire
pub mod Errors
pub mod Client
pub mod Queue
mod Runs
