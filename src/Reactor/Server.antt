-- ===== src/Reactor/Server.antt =====
-- server.go and listener.go: making, starting and stopping a server.
pub mod Defs
pub mod Stopping
