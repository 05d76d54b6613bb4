-- ===== src/Websocket.antt =====
-- The WebSocket plugin, plugins/websocket.
pub mod Cipher
pub mod Frame
pub mod Replies
pub mod Protocol
pub mod Http
pub mod Handler
pub mod Echo
pub mod Handshake
