-- ===== src/Script.antt =====
-- src/script: chords, text and macros compiled to keyboard reports.
pub mod Steps
pub mod Layout
pub mod KeyNames
pub mod Chord
pub mod Target
pub mod Compile
pub mod Macro
mod Tests
