-- ===== src/Connection/Idle.antt =====
-- connection.go: the idle time of a connection.
pub mod Defs
pub mod Timing
