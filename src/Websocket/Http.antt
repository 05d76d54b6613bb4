-- ===== src/Websocket/Http.antt =====
-- The text of the handshake: plugins/websocket/ws/utils.go and the parsers of ws/http.go.
pub mod Defs
pub mod Lines
pub mod Numbers
