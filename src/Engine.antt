-- ===== src/Engine.antt =====
-- Face capture and matching (linux-hello/src/engine.py).
pub mod Filter
pub mod Frames
pub mod Verify
pub mod Enroll
mod Tests
