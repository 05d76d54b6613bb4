-- ===== src/Websocket/Replies.antt =====
-- What a server answers: plugins/websocket/ws/utils/utils.go.
pub mod Defs
pub mod Laws
