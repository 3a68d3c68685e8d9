-- ===== src/Websocket.antt =====
-- src/websocket.rs: the Pusher connection, one module per part.
pub mod Frames
pub mod Redaction
pub mod Clock
pub mod Handshake
pub mod Listen
pub mod Connection
mod Tests
