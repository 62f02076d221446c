-- ===== src/Viewer/Chrome.antt =====
-- src/viewer/chrome: shortcuts and the paste of the clipboard.
pub mod Shortcut
pub mod Outstanding
pub mod Paste
pub mod Route
pub mod Job
mod Tests
