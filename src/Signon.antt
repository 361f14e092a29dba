-- ===== src/Signon.antt =====
-- The package signon.
pub mod Wire
pub mod Errors
pub mod Client
mod Runs
