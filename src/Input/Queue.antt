-- ===== src/Input/Queue.antt =====
-- src/input/queue.rs: the input queue. A method that takes `&mut self` and `&Counters` returns both.
-- An `Instant` is a number of nanoseconds.
pub mod Invariant
pub mod Drain
pub mod Order
use nano_kvm_usb_rs.Prelude.{
  ℕ, zero, suc, ◌+◌, ◌-◌, max, List, [], ◌∷◌, ◌++◌, Bool, true, false, ◌&&◌, not, Option, none,
  some, ltb, leb, ◌==◌, if◌then◌else◌, length, Result, ok, err,
}
use nano_kvm_usb_rs.Prelude.Int.{ℤ, pos, saturating_add, is_zero}
use nano_kvm_usb_rs.Proto.Report.{HidKey}
use nano_kvm_usb_rs.Input.Stats.{Counters, ReleaseReason, severity, bump, set_depth}

pub record MotionRun : Type 0 where
  pub abs : Option (ℕ × ℕ)
  pub dx : ℤ
  pub dy : ℤ
  pub wheel : ℤ

-- `MotionRun::default`.
abbrev pub no_motion : MotionRun
no_motion = record { abs = none; dx = pos 0; dy = pos 0; wheel = pos 0 }

abbrev pub is_none : Option (ℕ × ℕ) → Bool
is_none none = true
is_none (some p) = false

-- `MotionRun::is_empty`.
unfoldable pub is_empty : MotionRun → Bool
is_empty r = is_none r.abs && (is_zero r.dx && (is_zero r.dy && is_zero r.wheel))

pub data EntryKind : Type 0 where
  motion : MotionRun → EntryKind
  key : HidKey → Bool → EntryKind
  button : ℕ → Bool → EntryKind

abbrev pub is_barrier : EntryKind → Bool
is_barrier (motion run) = false
is_barrier (key k down) = true
is_barrier (button mask down) = true

pub record Entry : Type 0 where
  pub kind : EntryKind
  pub epoch : ℕ
  pub enqueued : ℕ

-- `QueueState`.
pub record Queue : Type 0 where
  pub entries : List Entry
  pub barriers : ℕ
  pub max_barriers : ℕ
  pub pending_reason : Option ReleaseReason

-- `QueueState::new`.
unfoldable pub new : ℕ → Queue
new max_barriers = record {
  entries = [];
  barriers = 0;
  max_barriers = max max_barriers 1;
  pending_reason = none;
}

unfoldable pub publish_depth : Queue → Counters → Counters
unfolding set_depth
publish_depth q c = set_depth (length q.entries) q.barriers c

abbrev pub run_of : ℕ → Entry → Option MotionRun
run_of epoch e = elim e.kind [
  | motion run ↦ if e.epoch == epoch then some run else none
  | key k down ↦ none
  | button mask down ↦ none
]

-- The tail motion run, if it belongs to the epoch.
unfoldable pub tail_run : ℕ → List Entry → Option MotionRun
tail_run epoch [] = none
tail_run epoch (e ∷ []) = run_of epoch e
tail_run epoch (e ∷ d ∷ r) = tail_run epoch (d ∷ r)

-- The write through the reference that `tail_run` returns.
unfoldable pub set_tail_run : MotionRun → List Entry → List Entry
set_tail_run run [] = []
set_tail_run run (e ∷ []) = record e { kind = motion run } ∷ []
set_tail_run run (e ∷ d ∷ r) = e ∷ set_tail_run run (d ∷ r)

unfoldable pub start_run : MotionRun → ℕ → ℕ → Queue → Queue
start_run run epoch now q = record q {
  entries = q.entries ++ (record { kind = motion run; epoch = epoch; enqueued = now } ∷ []);
}

-- One motion submission: into the tail run by `fold`, which tells what it counts, or a new run.
unfoldable pub push_motion :
    (MotionRun → MotionRun)
    → (MotionRun → Counters → Counters)
    → MotionRun
    → ℕ
    → ℕ
    → Queue
    → Counters
    → Queue × Counters
push_motion fold count fresh epoch now q c = elim (tail_run epoch q.entries) [
  | some run ↦
      (let q' = record q { entries = set_tail_run (fold run) q.entries } in
        (q', publish_depth q' (count run c)))
  | none ↦ (let q' = start_run fresh epoch now q in (q', publish_depth q' c))
]

unfoldable pub push_abs : ℕ → ℕ → ℕ → ℕ → Queue → Counters → Queue × Counters
push_abs x y epoch now =
    push_motion (λ run. record run { abs = some (x, y) })
      (λ run c. if is_none run.abs then c else record c { abs_replaced = bump c.abs_replaced })
      (record no_motion { abs = some (x, y) }) epoch now

unfoldable pub push_rel : ℤ → ℤ → ℕ → ℕ → Queue → Counters → Queue × Counters
push_rel dx dy epoch now =
    push_motion (λ run. record run { dx = saturating_add run.dx dx; dy = saturating_add run.dy dy })
      (λ run c. record c { rel_summed = bump c.rel_summed }) (record no_motion { dx = dx; dy = dy })
      epoch now

unfoldable pub push_wheel : ℤ → ℕ → ℕ → Queue → Counters → Queue × Counters
push_wheel delta epoch now =
    push_motion (λ run. record run { wheel = saturating_add run.wheel delta })
      (λ run c. record c { wheel_summed = bump c.wheel_summed })
      (record no_motion { wheel = delta }) epoch now

-- `Overflow`.
pub data Overflow : Type 0 where
  overflow : Overflow

-- `barriers` stays at most `max_barriers`, a `usize`, so the addition cannot wrap.
unfoldable pub push_barrier :
    EntryKind → ℕ → ℕ → Queue → Counters → Result (Queue × Counters) Overflow
push_barrier kind epoch now q c =
    if leb q.max_barriers q.barriers
    then err overflow
    else (let q' = record q {
      entries = q.entries ++ (record { kind = kind; epoch = epoch; enqueued = now } ∷ []);
      barriers = q.barriers + 1;
    } in
        ok (q', publish_depth q' c))

unfoldable pub note_reason : ReleaseReason → Queue → Queue
note_reason reason q = elim q.pending_reason [
  | none ↦ record q { pending_reason = some reason }
  | some current ↦
      if ltb (severity current) (severity reason)
      then record q { pending_reason = some reason }
      else q
]

unfoldable pub pop : Queue → Counters → Option Entry × Queue × Counters
pop q c = elim q.entries [
  | [] ↦ (none, q, c)
  | e ∷ es ↦
      (let q' = record q {
        entries = es;
        barriers = if is_barrier e.kind then q.barriers - 1 else q.barriers;
      } in
        (some e, q', publish_depth q' c))
]

-- `entries.retain(|e| e.epoch > epoch)`.
unfoldable pub retain_after : ℕ → List Entry → List Entry
retain_after epoch [] = []
retain_after epoch (e ∷ es) =
    let rest = retain_after epoch es in if ltb epoch e.epoch then e ∷ rest else rest

-- `entries.iter().filter(|e| e.kind.is_barrier()).count()`.
unfoldable pub count_barriers : List Entry → ℕ
count_barriers [] = 0
count_barriers (e ∷ es) =
    let rest = count_barriers es in if is_barrier e.kind then suc rest else rest

unfoldable pub drain_upto : ℕ → Queue → Counters → ℕ × Queue × Counters
drain_upto epoch q c =
    let kept = retain_after epoch q.entries in
    let q' = record q { entries = kept; barriers = count_barriers kept } in
    (length q.entries - length kept, q', publish_depth q' c)
