-- ===== src/Signal.antt =====
-- Signals: signal.c and the records of signal.h.
pub mod Send
pub mod Deliver
pub mod Frames
pub mod Handlers
pub mod Laws
mod Tests
