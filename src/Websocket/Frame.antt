-- ===== src/Websocket/Frame.antt =====
-- Frames: plugins/websocket/ws/frame.go, write.go and read.go.
pub mod Codes
pub mod Defs
pub mod Written
pub mod Reading
pub mod RoundTrip
pub mod Close
