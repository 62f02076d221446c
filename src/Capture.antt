-- ===== src/Capture.antt =====
-- src/capture: the handoff between the capture thread and the decode thread.
pub mod Slot
pub mod Jpeg
mod Tests
