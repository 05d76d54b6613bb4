-- ===== src/Pool.antt =====
-- The pool of ring buffers of ringbuffer/pool.go.
pub mod Defs
pub mod Index
pub mod Calibrate
pub mod Items
