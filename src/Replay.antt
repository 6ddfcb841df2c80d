-- ===== src/Replay.antt =====
-- What the log and the transactions of the kernel promise.
pub mod Atomic
pub mod Reading
pub mod Transactions
pub mod Receipts
pub mod Writes
pub mod Numbering
