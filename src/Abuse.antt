-- ===== src/Abuse.antt =====
-- The guards against abuse: crates/sentio-abuse.
pub mod Types
pub mod Counters
pub mod Lists
pub mod Reputation
pub mod Guard
pub mod Store
pub mod AutoBan
pub mod Refused
pub mod Down
pub mod Greylist
mod Samples
mod Tests
