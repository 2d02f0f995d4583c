-- ===== src/Core.antt =====
-- The types and codecs that the crates share.
pub mod Verp
pub mod Error
pub mod Kv
