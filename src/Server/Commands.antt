-- ===== src/Server/Commands.antt =====
-- The command parser, crates/sentio-smtp-server/src/commands.rs and xclient.rs.
pub mod Types
pub mod MailFrom
pub mod RcptTo
pub mod Line
pub mod Paths
pub mod Lines
pub mod Chunks
mod Tests
