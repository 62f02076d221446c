-- ===== src/Serial.antt =====
-- src/serial: replies matched to requests, and the link over a port.
pub mod Reader
pub mod Link
mod Tests
