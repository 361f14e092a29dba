-- ===== src/As400.antt =====
-- as400/: the datastream frame, the LL/CP parameters, the connection's correlation counter and
-- the generic logon that the service packages build on.
pub mod Error
pub mod Params
pub mod Datastream
pub mod Conn
pub mod Logon
pub mod Dial
pub mod Service
mod Runs
