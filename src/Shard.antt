-- ===== src/Shard.antt =====
-- rust/src/feed_handler.rs: `run_shard`, the task that owns one WebSocket of the venue.
pub mod State
pub mod Levels
pub mod Depth
pub mod Ticker
pub mod Message
pub mod Disconnect
pub mod Session
