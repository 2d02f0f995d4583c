-- ===== src/Transfer.antt =====
-- The body of a message from client to server: stuffing, the search for its end, unstuffing.
pub mod Stuffing
pub mod Ending
pub mod Delivery
mod Tests
pub mod Raw
pub mod Replies
pub mod Sending
