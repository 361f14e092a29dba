-- ===== src/Auth.antt =====
-- as400/auth/: texts in the restricted EBCDIC table and in UTF-16, and the password substitutes.
pub mod Ebcdic
pub mod Text
pub mod Des
pub mod Password
mod Runs
