-- ===== src/Examples.antt =====
-- The theorems, applied at concrete inputs, and a few runs.
mod Buffers
mod Frames
mod Loops
mod Handshake
mod Reactor
mod Servers
mod Polling
mod Calibration
