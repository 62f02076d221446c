-- ===== src/Input/Writer/Tests.antt =====
-- A run of the motion that the writer sends, and the witness of its theorem.
use nano_kvm_usb_rs.Prelude.{ℕ, [], ◌∷◌, true, false, none, some, ◌≡◌, refl}
use nano_kvm_usb_rs.Prelude.Int.{pos, negsuc, ◌-ℤ◌}
use nano_kvm_usb_rs.Proto.Report.{MouseRelReport}
use nano_kvm_usb_rs.Input.Held
use nano_kvm_usb_rs.Input.Shared
use nano_kvm_usb_rs.Input.Queue.{MotionRun, is_empty}
use nano_kvm_usb_rs.Input.Writer.Motion.{
  Turns, replied, Writer, rel_report, rel, flush_motion, cap_run, rel_loop, take_step, cap,
  write_step,
}
use nano_kvm_usb_rs.Input.Writer.Motion.Outcome.{Outcome}

abbrev quiet : Turns
quiet n = record { answer = replied; cancelled = false; now = n }

abbrev linked : Writer
linked = record { shared = Shared.new 2; link = true; held = Held.new; mode = rel; written = [] }

abbrev long_run : MotionRun
long_run = record { abs = none; dx = pos 300; dy = negsuc 0; wheel = pos 0 }

abbrev step : ℕ → MouseRelReport
step n = record { buttons = 0; dx = pos n; dy = pos 0; wheel = pos 0 }

long_run_reports :
    (flush_motion quiet long_run linked).1.written
    ≡ rel_report (record (step 127) { dy = negsuc 0 })
      ∷ rel_report (step 127)
      ∷ rel_report (step 46)
      ∷ []
unfolding flush_motion cap_run is_empty rel_loop take_step cap write_step ◌-ℤ◌
long_run_reports = refl

-- A position with deltas to follow, from a writer that holds the left button.
abbrev jump : MotionRun
jump = record { abs = some (100, 200); dx = pos 300; dy = negsuc 0; wheel = pos 2 }

abbrev dragging : Writer
dragging = record linked { held = record Held.new { buttons = 1 } }
