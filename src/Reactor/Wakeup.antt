-- ===== src/Reactor/Wakeup.antt =====
-- eventloop/eventloop.go: the task queue of a loop, and the wake-up of the loop by other goroutines.
pub mod Defs
pub mod Invariant
pub mod Progress
