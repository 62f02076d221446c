-- ===== src/Audio.antt =====
-- src/audio: the period ring between the capture device and the playback device.
pub mod Ring
mod Tests
