-- ===== src/Websocket/Protocol.antt =====
-- `UnPacket` on the buffer of a connection, before and after its upgrade: plugins/websocket/protocol.go.
pub mod Defs
pub mod Frames
pub mod Whole
pub mod Upgrading
pub mod Serving
pub mod Answering
