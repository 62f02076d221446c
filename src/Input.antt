-- ===== src/Input.antt =====
-- src/input: the queue, the held state, the shared admission state and the writer.
pub mod Stats
pub mod Event
pub mod Held
pub mod Queue
pub mod Shared
pub mod Writer
pub mod Protocol
mod Tests
