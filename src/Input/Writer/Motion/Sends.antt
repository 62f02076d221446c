-- ===== src/Input/Writer/Motion/Sends.antt =====
-- src/input/writer.rs: the loops that write a run of motion send it.
use nano_kvm_usb_rs.Prelude.{
  by_test, ℕ, zero, suc, Option, none, some, ◌*◌, ◌≤◌, true, ◌≡◌, refl, subst, arith,
}
use nano_kvm_usb_rs.Prelude.Int.{ℤ, pos, ◌+ℤ◌, is_zero}
use nano_kvm_usb_rs.Input.Writer.Motion.{
  Turns, Writer, Flow, done, MouseReport, rel_report, PointerMode, abs, rel, write_step, take_step,
  rel_loop, wheel_loop, wheel_report, and_then, after_first, all_zero,
}
use nano_kvm_usb_rs.Input.Writer.Motion.Steps.{
  size, size-take_step, size_zero, is_zero-eq, take_step-splits,
}
use nano_kvm_usb_rs.Input.Writer.Motion.Outcome.{
  Outcome, map-Outcome, Wrote, write_step-Outcome, and_then-Outcome,
}
use nano_kvm_usb_rs.Input.Writer.Motion.Totals.{
  x_of, y_of, wheel_of, Adds, Adds-none, Adds-step, IsOf,
}

all_zero-eq :
    (dx dy wheel : ℤ) → all_zero dx dy wheel ≡ true → (dx ≡ pos 0) × (dy ≡ pos 0) × (wheel ≡ pos 0)
all_zero-eq dx dy wheel h = (
  is_zero-eq dx (ground (arith, h)),
  is_zero-eq dy (ground (arith, h)),
  is_zero-eq wheel (ground (arith, h)),
)

all_zero_sizes :
    (dx dy wheel : ℤ) → size dx ≤ 0 → size dy ≤ 0 → size wheel ≤ 0 → all_zero dx dy wheel ≡ true
all_zero_sizes dx dy wheel h k l = rw (size_zero dx h, size_zero dy k, size_zero wheel l) refl

nothing_to_send :
    (buttons : ℕ) (place : Option (ℕ × ℕ)) (dx dy wheel : ℤ) (w : Writer)
    → all_zero dx dy wheel ≡ true
    → Adds buttons place dx dy wheel w.written w.written
nothing_to_send buttons place dx dy wheel w h =
    let (x, y, v) = all_zero-eq dx dy wheel h in rw (x, y, v) (Adds-none w.written)

-- What is sent behind a report, with the report.
pub behind_report :
    (turns : Turns) (w w' : Writer) (r : MouseReport) (rest : Flow × Writer) (buttons : ℕ)
    (place : Option (ℕ × ℕ)) (a b c : ℤ) {dx dy wheel : ℤ}
    → IsOf buttons place r
    → Wrote r w w'
    → x_of r +ℤ a ≡ dx
    → y_of r +ℤ b ≡ dy
    → wheel_of r +ℤ c ≡ wheel
    → Outcome turns w'.link rest (λ v. Adds buttons place a b c w'.written v.written)
    → Outcome turns w.link rest (λ v. Adds buttons place dx dy wheel w.written v.written)
behind_report turns w w' r rest buttons place a b c {dx} {dy} {wheel} fine wrote e f g o =
    subst (λ l. Outcome turns l rest (λ v. Adds buttons place dx dy wheel w.written v.written))
      wrote.link
      (map-Outcome turns w'.link rest _ (λ v. Adds buttons place dx dy wheel w.written v.written) o
        (λ v adds.
          Adds-step w.written v.written r fine
            (subst (λ before. Adds buttons place a b c before v.written) wrote.written adds) e f g))

pub rel_loop-Sends :
    (fuel : ℕ) (turns : Turns) (buttons : ℕ) (place : Option (ℕ × ℕ)) (dx dy wheel : ℤ) (w : Writer)
    → size dx ≤ 127 * fuel
    → size dy ≤ 127 * fuel
    → size wheel ≤ 127 * fuel
    → Outcome turns w.link
        (rel_loop fuel turns buttons dx dy wheel w)
        (λ w'. Adds buttons place dx dy wheel w.written w'.written)
unfolding rel_loop
rel_loop-Sends zero turns buttons place dx dy wheel w h k l =
    let e = all_zero_sizes dx dy wheel h k l in rw e (nothing_to_send buttons place dx dy wheel w e)
rel_loop-Sends (suc fuel) turns buttons place dx dy wheel w h k l =
    let x = take_step dx in
    let y = take_step dy in
    let v = take_step wheel in
    let r = rel_report (record { buttons = buttons; dx = x.0; dy = y.0; wheel = v.0 }) in
    let out = write_step (turns 0) r w in
    let rest = rel_loop fuel (after_first turns) buttons x.1 y.1 v.1 out.1 in
    by_test (all_zero dx dy wheel) (done, w) (and_then out.0 out.1 rest)
      (λ o. Outcome turns w.link o (λ w'. Adds buttons place dx dy wheel w.written w'.written))
      (λ e. nothing_to_send buttons place dx dy wheel w e)
      (λ e.
        and_then-Outcome turns w.link out rest (Wrote r w)
          (λ w'. Adds buttons place dx dy wheel w.written w'.written) (write_step-Outcome turns r w)
          (λ wrote.
            behind_report (after_first turns) w out.1 r rest buttons place x.1 y.1 v.1 refl wrote
              (take_step-splits dx) (take_step-splits dy) (take_step-splits wheel)
              (rel_loop-Sends fuel (after_first turns) buttons place x.1 y.1 v.1 out.1
                (size-take_step dx fuel h) (size-take_step dy fuel k)
                (size-take_step wheel fuel l))))

-- A wheel step moves nothing.
wheel_report_still :
    (buttons : ℕ) (mode : PointerMode) (v left wheel : ℤ)
    → v +ℤ left ≡ wheel
    → (x_of (wheel_report buttons mode v) +ℤ pos 0 ≡ pos 0)
      × (y_of (wheel_report buttons mode v) +ℤ pos 0 ≡ pos 0)
      × (wheel_of (wheel_report buttons mode v) +ℤ left ≡ wheel)
unfolding ◌+ℤ◌
wheel_report_still buttons (abs x y) v left wheel e = (refl, refl, e)
wheel_report_still buttons rel v left wheel e = (refl, refl, e)

-- The position of the last motion, when that was an absolute one.
abbrev pub position_of : PointerMode → Option (ℕ × ℕ)
position_of (abs x y) = some (x, y)
position_of rel = none

wheel_report-IsOf :
    (buttons : ℕ) (mode : PointerMode) (v : ℤ)
    → IsOf buttons (position_of mode) (wheel_report buttons mode v)
wheel_report-IsOf buttons (abs x y) v = (refl, refl)
wheel_report-IsOf buttons rel v = refl

pub wheel_loop-Sends :
    (fuel : ℕ) (turns : Turns) (buttons : ℕ) (wheel : ℤ) (w : Writer)
    → size wheel ≤ 127 * fuel
    → Outcome turns w.link
        (wheel_loop fuel turns buttons wheel w)
        (λ w'. Adds buttons (position_of w.mode) (pos 0) (pos 0) wheel w.written w'.written)
unfolding wheel_loop
wheel_loop-Sends zero turns buttons wheel w h =
    let e = size_zero wheel h in
    rw e (nothing_to_send buttons (position_of w.mode) (pos 0) (pos 0) wheel w e)
wheel_loop-Sends (suc fuel) turns buttons wheel w h =
    let v = take_step wheel in
    let r = wheel_report buttons w.mode v.0 in
    let still = wheel_report_still buttons w.mode v.0 v.1 wheel (take_step-splits wheel) in
    let out = write_step (turns 0) r w in
    let rest = wheel_loop fuel (after_first turns) buttons v.1 out.1 in
    by_test (is_zero wheel) (done, w) (and_then out.0 out.1 rest)
      (λ o.
        Outcome turns w.link o
          (λ w'. Adds buttons (position_of w.mode) (pos 0) (pos 0) wheel w.written w'.written))
      (λ e. nothing_to_send buttons (position_of w.mode) (pos 0) (pos 0) wheel w e)
      (λ e.
        and_then-Outcome turns w.link out rest (Wrote r w)
          (λ w'. Adds buttons (position_of w.mode) (pos 0) (pos 0) wheel w.written w'.written)
          (write_step-Outcome turns r w)
          (λ wrote.
            behind_report (after_first turns) w out.1 r rest buttons (position_of w.mode) (pos 0)
              (pos 0) v.1 (wheel_report-IsOf buttons w.mode v.0) wrote still.0 still.1 still.2
              (subst
                (λ mode. Outcome (after_first turns) out.1.link rest (λ u.
                  Adds buttons (position_of mode) (pos 0) (pos 0) v.1 out.1.written u.written))
                wrote.mode
                (wheel_loop-Sends fuel (after_first turns) buttons v.1 out.1
                  (size-take_step wheel fuel h)))))
