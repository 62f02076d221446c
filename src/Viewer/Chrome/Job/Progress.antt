-- ===== src/Viewer/Chrome/Job/Progress.antt =====
-- src/viewer/chrome/paste.rs: a job hands out its steps in order, and ends.
use nano_kvm_usb_rs.Prelude.{ℕ, zero, suc, ◌≤◌, List, [], ◌∷◌, true, false, some, ◌≡◌}
use nano_kvm_usb_rs.Input.Event.{Event}
use nano_kvm_usb_rs.Viewer.Chrome.Outstanding.{Outstanding, nothing, set_key, set_button}
use nano_kvm_usb_rs.Viewer.Chrome.Job.{PasteJob, done, Ending, Failure, total, delivered, fail, end}

-- What the caller does to a job that is in progress.
pub data Call : Type 0 where
  delivery : ℕ → Call
  failure : Failure → Call
  ending : Ending → Call

unfoldable pub called : Call → PasteJob → PasteJob
unfolding delivered fail end
called (delivery now) j = delivered now j
called (failure reason) j = fail reason j
called (ending e) j = (end e j).1

unfoldable pub run : List Call → PasteJob → PasteJob
unfolding called
run [] j = j
run (c ∷ cs) j = run cs (called c j)

-- What a step leaves held on a target: a press is added, a release is taken away.
abbrev pub leaves : Event → Outstanding → Outstanding
leaves (Event.key k true) o = set_key k true o
leaves (Event.key k false) o = set_key k false o
leaves (Event.button mask true) o = set_button mask true o
leaves (Event.button mask false) o = set_button mask false o
leaves _ o = o

-- What the first steps leave held.
unfoldable pub replayed : ℕ → List Event → Outstanding → Outstanding
replayed zero steps o = o
replayed (suc n) [] o = o
replayed (suc n) (e ∷ steps) o = replayed n steps (leaves e o)

-- No more steps are sent than there are, what is held is what the first ones leave held, and a job that is done has
-- sent them all.
pub record IsConsistent (j : PasteJob) : Type 0 where
  pub bound : j.sent ≤ total j
  pub held : j.held ≡ replayed j.sent j.steps nothing
  pub whole : (n : ℕ) → j.outcome ≡ some (done n) → (n ≡ total j) × (j.sent ≡ total j)

-- The deliveries that a caller reports.
abbrev pub deliveries : List Call → ℕ
deliveries [] = 0
deliveries (delivery now ∷ cs) = suc (deliveries cs)
deliveries (_ ∷ cs) = deliveries cs
