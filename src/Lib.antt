-- ===== src/Lib.antt =====
-- NanoKVM-USB: the client of a USB KVM dongle. Keyboard and mouse events of the user's desk go to a
-- target machine through the serial HID chip of the dongle; video and audio come back.
--
-- The parts and how they interact. The viewer (src/viewer) reduces window events to a capture
-- session, which forwards input while it is captured. A producer (src/input) admits a forwarded
-- event to a bounded queue that coalesces motion; one writer thread takes entries out, keeps the
-- state of the held keys, and writes reports as frames (src/proto) over a serial link. A trigger
-- (focus loss, overflow, a lost link, a shutdown) ends the running session by raising an epoch; the
-- writer drains the queue, writes a release of all keys and acknowledges the epoch, and only then
-- can a session be engaged again. Video frames pass through a one-place slot (src/capture) and audio
-- through a ring of periods (src/audio).
--
-- The files. `Prelude` has the shared names, and lemmas on lists, numbers and results; its `Int`
-- is a two-constructor integer over the native numbers, with the saturating `i32` addition.
-- - Proto/Frame, Proto/Parser: src/proto/frame.rs. `encode`, `checksum` and `checksum_over` keep
--   their names; `Parser::scan` is `scan_round` (one pass of its loop, a header search followed by
--   `take_candidate`) under the fuel of `scan_loop`. Each round that continues takes at least one
--   byte out of the buffer, so a round for each byte and one more is enough (Proto/Parser/Rounds).
--   `Parser::push` is `push` over chunks of the buffer's bound.
-- - Proto/Report: src/proto/report.rs; Proto/Reply: src/link.rs; Proto/DeviceInfo: the rest of
--   src/proto/frame.rs; Proto/UsbString: src/proto/usb_string.rs, where the decoding and the
--   escaping of the Rust library are parameters.
-- - Input/Stats, Input/Held, Input/Queue: the files of src/input with these names.
--   Input/Shared: the critical sections of src/input/shared.rs and of the `Producer` of
--   src/input/mod.rs, each a function from the shared state to an answer and the shared state.
--   Input/Writer: those of src/input/writer.rs. Input/Writer/Motion: `flush_motion` with the
--   helpers that it calls, over the turns that the transactions with the link take: each has an
--   outcome of `Link::transact`, and says whether a cancellation is read behind it. Its loops
--   run on fuel; an axis holds 4095 at most once it is capped, and 33 reports carry 33 * 127.
--   Input/Protocol: the loop of the writer as a relation `Move` between its places, interleaved
--   step by step with the calls of any number of threads (`Call`); `refresh_device_info` takes three of its
--   places. Who a condition variable wakes is left out here and in Capture/Slot.
-- - Serial/Reader: src/serial/reader.rs, where a turn of the reader thread is the handling of one read.
--   Serial/Link: `SerialLink` of src/serial/link.rs with the errors of src/link.rs; `transact` is a `Phase`
--   between its critical sections (`step`), and `Move` interleaves them with the turns of the reader. What
--   the port says of a write or a read is an input, and so is the clock. Serial/Reader/Matcher is what the matcher promises.
-- - Viewer/Session: `reduce` and its helpers of src/viewer/state.rs.
-- - Proto/Keymap: src/proto/keymap.rs and the modifier bits of src/proto/report.rs. Script/Steps, Layout,
--   KeyNames and Chord: the files of src/script with these names (Steps is its mod.rs). Script/Compile:
--   `compile_key` and `compile_type` of src/script/compile.rs; Script/Macro: its `compile_macro`. A
--   character is its number, and a text a list of them. Script/Layout/Board and Script/Target are not
--   code of the program: they say what a US keyboard types, from its rows of keys, and what a
--   target reads out of a sequence of keyboard reports.
-- - Viewer/Chrome/Shortcut, Viewer/Chrome/Paste: the files of src/viewer/chrome with these names; what a paste
--   sends goes through `apply_key` of Input/Held to the target of Script/Target.
--   Viewer/Chrome/Job: the paste job of src/viewer/chrome/paste.rs, with the `Outstanding` of
--   src/viewer/chrome/route.rs. Job/Turns has the caller's loop, as its documentation gives it, and
--   Job/Pasted joins the clipboard to the target.
--   Viewer/Chrome/Route: the routing rule of src/viewer/chrome/route.rs, with `map_key` and `map_button` of
--   src/viewer/input_map.rs.
-- - Viewer/Routing: the arms of `window_event` for keys and buttons, `feed`, and what `perform` records,
--   of src/viewer/app.rs. What the rule reads of popovers and pastes is an input of each event.
-- - Audio/Ring: src/audio/ring.rs. Capture/Slot: src/capture/handoff.rs.
--   Capture/Jpeg: src/capture/jpeg.rs, where the loop over the markers runs on fuel, one turn for each byte.
--
-- Machine integers. The wrap-around of epochs and counters is written out where it can be reached;
-- where a bound excludes it, a comment at the definition says which. The steps that raise an epoch
-- ask for room in the `u64`. An instant is a number of nanoseconds. A mutable receiver is an
-- argument and a result.
--
-- Not modelled: the opening of ports, the opening of a link with its backoff, the capture
-- pipeline with V4L2 and the decoders, ALSA, the discovery of devices, the command line, and
-- the window. They are input and output, or wait for the outside. What the writer sends between two
-- critical sections stands in `Move` as an outcome that may be any.
pub mod Prelude
pub mod Proto
pub mod Input
pub mod Serial
pub mod Script
pub mod Viewer
pub mod Audio
pub mod Capture
