-- ===== src/Input/Writer/Motion/Flush.antt =====
-- src/input/writer.rs: a run of motion is written.
use nano_kvm_usb_rs.Prelude.{ℕ, ◌*◌, ◌≤◌, List, Option, none, some}
use nano_kvm_usb_rs.Prelude.Int.{ℤ, pos}
use nano_kvm_usb_rs.Input.Queue.{MotionRun}
use nano_kvm_usb_rs.Input.Writer.Motion.{
  Turns, Writer, Flow, MouseReport, abs_report, PointerMode, rounds,
}
use nano_kvm_usb_rs.Input.Writer.Motion.Steps.{size}
use nano_kvm_usb_rs.Input.Writer.Motion.Outcome.{Outcome}
use nano_kvm_usb_rs.Input.Writer.Motion.Totals.{Adds, IsAt}
use nano_kvm_usb_rs.Input.Writer.Motion.Sends.{position_of}

abbrev at_position : ℕ → ℕ → ℕ → ℤ → MouseReport
at_position buttons x y v = abs_report (record { buttons = buttons; x = x; y = y; wheel = v })

-- What the reports of a position have done, with the wheel that they carried.
abbrev Positioned : ℕ → ℕ → ℕ → ℤ → Writer → Writer → Type 0
Positioned buttons x y wheel w o =
    Adds buttons (some (x, y)) (pos 0) (pos 0) wheel w.written o.written × IsAt (x, y) o.written

-- Where the absolute reports of a run are: at its position, or at the last one.
abbrev pub place_of : Option (ℕ × ℕ) → PointerMode → Option (ℕ × ℕ)
place_of none mode = position_of mode
place_of (some p) mode = some p

-- The pointer is at the position of a run that has one.
abbrev pub Points : Option (ℕ × ℕ) → List MouseReport → Type 0
Points none reports = Unit
Points (some p) reports = IsAt p reports

-- What a run is to send, from the outcome of its loops.
abbrev Sent : Turns → MotionRun → Option (ℕ × ℕ) → Writer → Flow × Writer → Type 0
Sent turns run p w out = Outcome turns w.link out (λ o.
    Adds w.held.buttons (place_of p w.mode) run.dx run.dy run.wheel w.written o.written
    × Points p o.written)

-- Each axis of the run fits in the rounds.
record Fits (run : MotionRun) : Type 0 where
  dx : size run.dx ≤ 127 * rounds
  dy : size run.dy ≤ 127 * rounds
  wheel : size run.wheel ≤ 127 * rounds
