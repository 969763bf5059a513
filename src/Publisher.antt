-- ===== src/Publisher.antt =====
-- rust/src/publisher.rs: subscribers, the fan-out of messages to them, and the WebSocket clients.
pub mod Hub
pub mod Publish
pub mod Client
pub mod Stream
pub mod Dispatcher
