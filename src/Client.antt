-- ===== src/Client.antt =====
-- The outbound SMTP client, crates/sentio-smtp-client.
pub mod DotStuff
pub mod Wire
pub mod Reply
pub mod Dialogue
pub mod Bounces
pub mod Delivery
pub mod Pool
mod Tests
