-- ===== src/Websocket/Handshake/Laws.antt =====
-- What the handshake does: the cutting of a request into lines, the lines that are accepted, the
-- responses.
pub mod Cutting
pub mod Lines
pub mod Accepting
pub mod Writing
