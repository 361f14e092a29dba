-- ===== src/Database.antt =====
-- database/: the as-database client.
pub mod Ccsid
pub mod Decimal
pub mod Value
pub mod Format
pub mod Data
pub mod Wire
pub mod Conn
pub mod Errors
pub mod Setup
pub mod Connect
pub mod Stmt
pub mod Driver
mod Runs
