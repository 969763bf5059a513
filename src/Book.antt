-- ===== src/Book.antt =====
-- rust/src/book.rs: the order book of one symbol, a part of it to each module.
pub mod State
pub mod Buffer
pub mod Levels
pub mod Integrity
pub mod Depth
pub mod Snapshot
pub mod Lifecycle
pub mod Runs
pub mod Invariant
