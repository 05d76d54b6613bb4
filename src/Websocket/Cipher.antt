-- ===== src/Websocket/Cipher.antt =====
-- `Cipher` of plugins/websocket/ws/cipher.go.
pub mod Defs
pub mod Words
pub mod Loops
pub mod Laws
