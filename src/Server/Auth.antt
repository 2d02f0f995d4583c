-- ===== src/Server/Auth.antt =====
-- The SASL exchanges: crates/sentio-smtp-server/src/auth.rs.
pub mod Types
pub mod Passwords
pub mod Scram
pub mod ScramFinal
pub mod Exchange
pub mod Bytes
pub mod Completes
pub mod Accounts
mod Samples
mod Tests
