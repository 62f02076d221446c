-- ===== src/Viewer.antt =====
-- src/viewer: the capture state machine, and what the chrome around the video types.
pub mod Session
pub mod Chrome
pub mod Routing
mod Tests
