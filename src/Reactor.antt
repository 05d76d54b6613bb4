-- ===== src/Reactor.antt =====
-- The reactor: the tasks and sockets of event loops, events, the choice of a loop, the server, options, contexts.
pub mod Wakeup
pub mod Context
pub mod Balance
pub mod Options
pub mod Events
pub mod Sockets
pub mod Server
pub mod Polling
