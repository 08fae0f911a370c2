-- ===== src/Store/Queue.antt =====
-- Laws of the queue operations of src/server.rs, on the rows of the notifications table.
pub mod Rows
pub mod Order
pub mod Count
pub mod Keys
pub mod Claim
pub mod Exclusive
pub mod Settled
pub mod Outbox
pub mod Retry
pub mod Exhausted
