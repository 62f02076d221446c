-- ===== src/Proto.antt =====
-- src/proto and src/link.rs: CH9329 framing, HID reports, device replies.
pub mod Report
pub mod Keymap
pub mod Reply
pub mod Frame
pub mod Parser
pub mod DeviceInfo
pub mod UsbString
mod Tests
