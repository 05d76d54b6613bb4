-- ===== src/Websocket/Handshake.antt =====
-- The opening handshake: plugins/websocket/ws/errors.go, ws/nonce.go, ws/ws.go and the writing of
-- responses of ws/http.go.
pub mod Errors
pub mod Responses
pub mod Headers
pub mod Upgrade
pub mod Laws
