-- ===== src/MailAuth.antt =====
-- The checks of who sent a message, crates/sentio-auth.
pub mod Types
pub mod MtaSts
pub mod Dmarc
mod Tests
