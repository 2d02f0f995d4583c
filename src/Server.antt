-- ===== src/Server.antt =====
-- The inbound SMTP server, crates/sentio-smtp-server.
pub mod Response
pub mod Validation
pub mod Reader
pub mod Commands
pub mod Extensions
pub mod Session
pub mod Auth
pub mod Proxy
pub mod Routing
