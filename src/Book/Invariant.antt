-- ===== src/Book/Invariant.antt =====
-- What holds of a book between two calls of its methods.
pub mod Parts
pub mod Depth
pub mod Snapshot
