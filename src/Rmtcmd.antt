-- ===== src/Rmtcmd.antt =====
-- rmtcmd/: remote commands and program calls.
pub mod Rle
pub mod Wire
pub mod Errors
pub mod Client
pub mod Messages
mod Runs
