-- ===== src/Reactor/Polling.antt =====
-- poller/epoll.go: the loop of `Poll`.
pub mod Defs
pub mod Rounds
