-- ===== src/Input/Writer/Motion.antt =====
-- src/input/writer.rs: how a run of motion is written, report by report.
pub mod Steps
pub mod Outcome
pub mod Totals
pub mod Sends
pub mod Flush
use nano_kvm_usb_rs.Prelude.{
  ℕ, zero, suc, ◌+◌, ◌-◌, ◌%◌, ◌^◌, List, [], ◌∷◌, ◌++◌, Bool, true, false, not, ◌&&◌, ◌||◌, Option,
  none, some, ltb, ◌==◌, if◌then◌else◌,
}
use nano_kvm_usb_rs.Prelude.Int.{ℤ, pos, negsuc, pos_part, neg_part, ◌-ℤ◌, clamp, is_zero}
use nano_kvm_usb_rs.Proto.Report.{
  MouseRelReport, MouseAbsReport, rel_payload, abs_payload, send_ms_abs_data, send_ms_rel_data,
  abs_max,
}
use nano_kvm_usb_rs.Input.Stats.{Counters, bump}
use nano_kvm_usb_rs.Input.Queue.{MotionRun, is_empty}
use nano_kvm_usb_rs.Input.Held.{HeldState}
use nano_kvm_usb_rs.Input.Shared.{Shared, mark_link_down}

pub data PointerMode : Type 0 where
  abs : ℕ → ℕ → PointerMode
  rel : PointerMode

-- A report, for its command and its payload.
pub data MouseReport : Type 0 where
  abs_report : MouseAbsReport → MouseReport
  rel_report : MouseRelReport → MouseReport

abbrev pub command_of : MouseReport → ℕ
command_of (abs_report r) = send_ms_abs_data
command_of (rel_report r) = send_ms_rel_data

abbrev pub payload_of : MouseReport → List ℕ
payload_of (abs_report r) = abs_payload r
payload_of (rel_report r) = rel_payload r

-- The outcomes of `Link::transact`, with `Down` and `Io` as one.
pub data Answer : Type 0 where
  replied device_error timed_out lost : Answer

-- What is outside the writer in one transaction: its outcome, what `cancelled` then reads, and the clock.
pub record Turn : Type 0 where
  pub answer : Answer
  pub cancelled : Bool
  pub now : ℕ

-- The writer's own fields with the shared state, and the reports that reached the transport. `link`
-- says whether there is one.
pub record Writer : Type 0 where
  pub shared : Shared
  pub link : Bool
  pub held : HeldState
  pub mode : PointerMode
  pub written : List MouseReport

-- How a loop ends: by its condition, by a cancellation, by `Err(Down)`; or its fuel is too small.
pub data Flow : Type 0 where
  done abandoned down out_of_fuel : Flow

unfoldable pub count_written : MouseReport → Counters → Counters
count_written (abs_report r) c = record c { abs_reports = bump c.abs_reports }
count_written (rel_report r) c = record c { rel_reports = bump c.rel_reports }

-- A frame that reached the transport, with the counters and the flag that its outcome changes.
abbrev pub reached : MouseReport → (Shared → Shared) → Writer → Writer
reached r f w =
    let s = f w.shared in
    record w {
      shared = record s { counters = count_written r s.counters };
      written = w.written ++ (r ∷ []);
    }

abbrev pub note_device_error : Shared → Shared
note_device_error s = record s {
  counters = record (s.counters) { device_errors = bump s.counters.device_errors };
}

abbrev pub note_timeout : Shared → Shared
note_timeout s = record s {
  counters = record (s.counters) { timeouts = bump s.counters.timeouts };
  degraded = true;
}

-- `true` for `Ok`.
unfoldable pub answered : Turn → MouseReport → Writer → Bool × Writer
unfolding count_written
answered t r w = elim t.answer [
  | replied ↦ (true, reached r (λ s. s) w)
  | device_error ↦ (true, reached r note_device_error w)
  | timed_out ↦ (true, reached r note_timeout w)
  | lost ↦ (false, record w { shared = mark_link_down t.now w.shared })
]

unfoldable pub write_frame : Turn → MouseReport → Writer → Bool × Writer
unfolding answered
write_frame t r w = if w.link then answered t r w else (false, w)

-- `done` for `Ok(true)`.
unfoldable pub write_step : Turn → MouseReport → Writer → Flow × Writer
unfolding write_frame
write_step t r w =
    let (written, w') = write_frame t r w in
    (if written then if t.cancelled then abandoned else done else down, w')

-- The report's part of a delta, and what is left of it.
unfoldable pub take_step : ℤ → ℤ × ℤ
unfolding clamp
take_step remaining = let step = clamp (negsuc 126) (pos 127) remaining in (step, remaining -ℤ step)

abbrev pub rel_run_max : ℕ
rel_run_max = abs_max

unfoldable pub cap : ℤ → ℤ
unfolding clamp
cap axis = clamp (negsuc (rel_run_max - 1)) (pos rel_run_max) axis

-- 1 for an axis that `cap` changes.
abbrev pub is_truncated : ℤ → ℕ
is_truncated axis =
    if pos_part (cap axis) == pos_part axis && neg_part (cap axis) == neg_part axis then 0 else 1

unfoldable pub cap_run : MotionRun → MotionRun
cap_run run = record run { dx = cap run.dx; dy = cap run.dy; wheel = cap run.wheel }

unfoldable pub count_truncated : MotionRun → Shared → Shared
count_truncated run s =
    let truncated = is_truncated run.dx + is_truncated run.dy + is_truncated run.wheel in
    record s {
      counters = record (s.counters) {
        rel_truncated = (s.counters.rel_truncated + truncated) % 2 ^ 64;
      };
    }

-- Behind a `write_step`: the rest of the loop, unless the function returns.
abbrev pub and_then : Flow → Writer → Flow × Writer → Flow × Writer
and_then done w rest = rest
and_then abandoned w rest = (abandoned, w)
and_then down w rest = (down, w)
and_then out_of_fuel w rest = (out_of_fuel, w)

abbrev pub all_zero : ℤ → ℤ → ℤ → Bool
all_zero dx dy wheel = is_zero dx && (is_zero dy && is_zero wheel)

-- The loops take the turns of the transactions to come.
abbrev pub Turns : Type 0
Turns = ℕ → Turn

abbrev pub after_first : Turns → Turns
after_first turns n = turns (suc n)

-- The `while` of the relative deltas.
unfoldable pub rel_loop : ℕ → Turns → ℕ → ℤ → ℤ → ℤ → Writer → Flow × Writer
unfolding take_step write_step
rel_loop zero turns buttons dx dy wheel w =
    if all_zero dx dy wheel then (done, w) else (out_of_fuel, w)
rel_loop (suc fuel) turns buttons dx dy wheel w =
    let (x, dx_left) = take_step dx in
    let (y, dy_left) = take_step dy in
    let (v, wheel_left) = take_step wheel in
    let r = rel_report (record { buttons = buttons; dx = x; dy = y; wheel = v }) in
    let (flow, w') = write_step (turns 0) r w in
    let rest = rel_loop fuel (after_first turns) buttons dx_left dy_left wheel_left w' in
    if all_zero dx dy wheel then (done, w) else and_then flow w' rest

-- The `loop` of the absolute reports; with relative deltas to follow it is left after the first.
unfoldable pub abs_loop : ℕ → Turns → ℕ → Bool → ℕ → ℕ → ℤ → Writer → Flow × Writer
unfolding take_step write_step
abs_loop zero turns buttons has_rel x y wheel w = (out_of_fuel, w)
abs_loop (suc fuel) turns buttons has_rel x y wheel w =
    let (v, left) = if has_rel then (pos 0, wheel) else take_step wheel in
    let r = abs_report (record { buttons = buttons; x = x; y = y; wheel = v }) in
    let (flow, w') = write_step (turns 0) r w in
    let rest = abs_loop fuel (after_first turns) buttons has_rel x y left w' in
    and_then flow w' (if has_rel || is_zero left then (done, w') else rest)

-- A wheel step alone, by the mode.
abbrev pub wheel_report : ℕ → PointerMode → ℤ → MouseReport
wheel_report buttons (abs x y) v =
    abs_report (record { buttons = buttons; x = x; y = y; wheel = v })
wheel_report buttons rel v =
    rel_report (record { buttons = buttons; dx = pos 0; dy = pos 0; wheel = v })

-- The `while` of a run that is a wheel's only.
unfoldable pub wheel_loop : ℕ → Turns → ℕ → ℤ → Writer → Flow × Writer
unfolding take_step write_step
wheel_loop zero turns buttons wheel w = if is_zero wheel then (done, w) else (out_of_fuel, w)
wheel_loop (suc fuel) turns buttons wheel w =
    let (v, left) = take_step wheel in
    let (flow, w') = write_step (turns 0) (wheel_report buttons w.mode v) w in
    let rest = wheel_loop fuel (after_first turns) buttons left w' in
    if is_zero wheel then (done, w) else and_then flow w' rest

-- 33 reports of 127 are more than a capped axis.
abbrev pub rounds : ℕ
rounds = 33

-- Behind the absolute part, whose turns are past when there are relative deltas: it took one.
abbrev pub flush_rel : Turns → MotionRun → Writer → Flow × Writer
flush_rel turns run w =
    rel_loop rounds turns w.held.buttons run.dx run.dy run.wheel (record w { mode = rel })

abbrev pub has_rel : MotionRun → Bool
has_rel run = not (is_zero run.dx && is_zero run.dy)

abbrev pub flush_capped : Turns → MotionRun → Option (ℕ × ℕ) → Writer → Flow × Writer
flush_capped turns run (some (x, y)) w =
    let (flow, w') =
      abs_loop rounds turns w.held.buttons (has_rel run) x y run.wheel
        (record w { mode = abs x y }) in
    and_then flow w' (if has_rel run then flush_rel (after_first turns) run w' else (done, w'))
flush_capped turns run none w =
    if has_rel run
    then flush_rel turns run w
    else wheel_loop rounds turns w.held.buttons run.wheel w

unfoldable pub flush_motion : Turns → MotionRun → Writer → Flow × Writer
flush_motion turns run w =
    let capped = cap_run run in
    let w' = record w { shared = count_truncated run w.shared } in
    if is_empty capped then (done, w') else flush_capped turns capped capped.abs w'
