-- ===== src/Reactor/Sockets.antt =====
-- eventloop/eventloop.go: the sockets of a loop and its count of connections, over poller/epoll.go.
pub mod Tables
pub mod Defs
pub mod Counting
