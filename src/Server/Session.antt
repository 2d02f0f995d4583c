-- ===== src/Server/Session.antt =====
-- The SMTP session, crates/sentio-smtp-server/src/session.rs.
pub mod Types
pub mod Envelope
pub mod Messages
pub mod Login
pub mod Loop
pub mod Rules
pub mod Acceptance
pub mod Frame
pub mod LoginFrame
pub mod Termination
pub mod Invariant
pub mod Chunks
pub mod Contract
pub mod Protocol
pub mod Guards
pub mod Samples
mod Tests
