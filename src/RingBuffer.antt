-- ===== src/RingBuffer.antt =====
-- The byte queue of ringbuffer/ringbuffer.go.
pub mod Defs
pub mod Access
pub mod Contents
pub mod Reading
pub mod Storing
pub mod Writing
pub mod Growing
pub mod Bytewise
pub mod Peeking
pub mod Virtual
pub mod Exhausted
pub mod Making
pub mod Queue
