-- ===== src/Input/Shared/Enqueue.antt =====
-- What a submission does to the queue: src/input/mod.rs.
use nano_kvm_usb_rs.Prelude.{
  ℕ, min, List, [], ◌∷◌, true, leb, All, All-append, Result, ok, err, ◌≡◌, refl, inl, inr,
  Option-cases, Bool-cases,
}
use nano_kvm_usb_rs.Input.Stats.{Counters}
use nano_kvm_usb_rs.Input.Event.{Event}
use nano_kvm_usb_rs.Input.Queue.{
  Queue, Entry, EntryKind, motion, MotionRun, is_barrier, tail_run, set_tail_run, start_run,
  push_motion, push_abs, push_rel, push_wheel, push_barrier,
}
use nano_kvm_usb_rs.Input.Queue
use nano_kvm_usb_rs.Input.Queue.Invariant.{
  IsValid, AreUpto, push_abs-IsValid, push_rel-IsValid, push_wheel-IsValid, push_barrier-IsValid,
}
use nano_kvm_usb_rs.Input.Shared.{enqueue, admitted}

module _ (q : Queue) (c : Counters) (epoch now : ℕ) (v : IsValid q)
    (u : AreUpto epoch q.entries) where
  admitted-IsValid :
      (kind : EntryKind)
      → is_barrier kind ≡ true
      → (r : Result (Queue × Counters) Queue.Overflow) → push_barrier kind epoch now q c ≡ r
      → IsValid (admitted q c r).1
  admitted-IsValid kind b (ok (q', c')) e = push_barrier-IsValid q c epoch now v u kind b e
  admitted-IsValid kind b (err o) e = v

  -- A submission to a valid queue with no entry younger than the submission's epoch leaves it valid,
  -- whatever the event: the barrier count is exact and within its bound, the epochs are in order, and
  -- no two adjacent motion runs share an epoch.
  pub enqueue-IsValid : (e : Event) → IsValid (enqueue e epoch now q c).1
  unfolding enqueue
  enqueue-IsValid (Event.key k down) = admitted-IsValid (EntryKind.key k down) refl _ refl
  enqueue-IsValid (Event.button mask down) =
      admitted-IsValid (EntryKind.button mask down) refl _ refl
  enqueue-IsValid (Event.pointer_abs x y) =
      push_abs-IsValid q c epoch now v u (min x 4095) (min y 4095)
  enqueue-IsValid (Event.pointer_rel dx dy) = push_rel-IsValid q c epoch now v u dx dy
  enqueue-IsValid (Event.wheel delta) = push_wheel-IsValid q c epoch now v u delta

-- Epochs of the entries after a submission: those before, and its own.
module _ (P : ℕ → Type 0) (epoch now : ℕ) (new : P epoch) where
  abbrev Epochs : List Entry → Type 0
  Epochs = All (λ e. P e.epoch)

  set_tail_run-Epochs :
      (run : MotionRun) (es : List Entry) → Epochs es → Epochs (set_tail_run run es)
  unfolding set_tail_run
  set_tail_run-Epochs run [] a = a
  set_tail_run-Epochs run (e ∷ []) a = a
  set_tail_run-Epochs run (e ∷ d ∷ r) a = (a.0, set_tail_run-Epochs run (d ∷ r) a.1)

  push_motion-Epochs :
      (fold : MotionRun → MotionRun) (count : MotionRun → Counters → Counters) (fresh : MotionRun)
      (q : Queue) (c : Counters)
      → Epochs q.entries
      → Epochs (push_motion fold count fresh epoch now q c).0.entries
  unfolding push_motion start_run
  push_motion-Epochs fold count fresh q c a = elim (Option-cases (tail_run epoch q.entries)) [
    | inl e ↦ rw (e, push_motion) (All-append _ q.entries _ a (new, tt))
    | inr (run, e) ↦ rw (e, push_motion) (set_tail_run-Epochs (fold run) q.entries a)
  ]

  barrier-Epochs :
      (kind : EntryKind) (q : Queue) (c : Counters)
      → Epochs q.entries
      → Epochs (admitted q c (push_barrier kind epoch now q c)).1.entries
  unfolding push_barrier
  barrier-Epochs kind q c a = elim (Bool-cases (leb q.max_barriers q.barriers)) [
    | inl e ↦ rw e a
    | inr e ↦ rw e (All-append _ q.entries _ a (new, tt))
  ]

  pub enqueue-Epochs :
      (e : Event) (q : Queue) (c : Counters)
      → Epochs q.entries
      → Epochs (enqueue e epoch now q c).1.entries
  unfolding enqueue push_abs push_rel push_wheel
  enqueue-Epochs (Event.key k down) q c a = barrier-Epochs (EntryKind.key k down) q c a
  enqueue-Epochs (Event.button mask down) q c a = barrier-Epochs (EntryKind.button mask down) q c a
  enqueue-Epochs (Event.pointer_abs x y) q c a = push_motion-Epochs _ _ _ q c a
  enqueue-Epochs (Event.pointer_rel dx dy) q c a = push_motion-Epochs _ _ _ q c a
  enqueue-Epochs (Event.wheel delta) q c a = push_motion-Epochs _ _ _ q c a
