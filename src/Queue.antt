-- ===== src/Queue.antt =====
-- The delivery queue.
pub mod Retry
