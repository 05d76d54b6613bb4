-- ===== src/Connection.antt =====
-- connection.go and protocol.go: input and output of a connection, its idle time and its closing, and the
-- default protocol.
pub mod Defs
pub mod Sending
pub mod Draining
pub mod Unpacking
pub mod Serving
pub mod Consuming
pub mod Answering
pub mod Idle
pub mod Tasks
