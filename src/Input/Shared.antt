-- ===== src/Input/Shared.antt =====
-- src/input/shared.rs and the `Producer` of src/input/mod.rs. A critical section is one function
-- that takes and returns the shared state; the condition variable has no state of its own.
-- Times are nanoseconds. `Protocol` runs these functions interleaved with the writer's.
pub mod Enqueue
pub mod Replay
use nano_kvm_usb_rs.Prelude.{
  ℕ, ◌+◌, ◌%◌, ◌^◌, min, Bool, true, false, Option, none, some, ltb, if◌then◌else◌, Result, ok, err,
}
use nano_kvm_usb_rs.Proto.Report.{abs_max}
use nano_kvm_usb_rs.Proto.DeviceInfo.{DeviceInfo}
use nano_kvm_usb_rs.Input.Stats.{
  ReleaseReason, ReleaseOutcome, unsent, ReleaseRecord, Counters, no_counts, bump,
}
use nano_kvm_usb_rs.Input.Event.{Event, SubmitError, disengaged, EngageError, not_yet_acked}
use nano_kvm_usb_rs.Input.Queue.{
  Queue, EntryKind, push_abs, push_rel, push_wheel, push_barrier, note_reason,
}
use nano_kvm_usb_rs.Input.Queue

pub record LinkState : Type 0 where
  pub down : Bool
  pub down_since : Option ℕ
  pub device_info : Option DeviceInfo
  pub info_generation : ℕ
  pub info_stale : Bool

pub record Shared : Type 0 where
  pub queue : Queue
  pub requested_epoch : ℕ
  pub acked_epoch : ℕ
  pub cancel : Bool
  pub engaged : Bool
  pub link_down : Bool
  pub link_state : LinkState
  pub degraded : Bool
  pub refresh_info : Bool
  pub shutting_down : Bool
  pub counters : Counters
  pub last_release : Option ReleaseRecord

-- `Shared::new`.
unfoldable pub new : ℕ → Shared
new max_barriers = record {
  queue = Queue.new max_barriers;
  requested_epoch = 0;
  acked_epoch = 0;
  cancel = false;
  engaged = true;
  link_down = false;
  link_state = record {
    down = false;
    down_since = none;
    device_info = none;
    info_generation = 0;
    info_stale = false;
  };
  degraded = false;
  refresh_info = false;
  shutting_down = false;
  counters = no_counts;
  last_release = none;
}

pub data ReasonSlot : Type 0 where
  note : ReleaseReason → ReasonSlot
  take : ReasonSlot

-- The epoch behind `fetch_add(1) + 1`.
abbrev pub next_epoch : ℕ → ℕ
next_epoch e = (e + 1) % 2 ^ 64

-- The queue and the reason that the slot leaves and takes.
unfoldable pub fill_slot : ReasonSlot → Queue → Option ReleaseReason × Queue
fill_slot (note reason) q = (none, note_reason reason q)
fill_slot take q = (q.pending_reason, record q { pending_reason = none })

-- `Shared::raise`, the body that every trigger shares.
unfoldable pub raise : ReasonSlot → Bool → Shared → (ℕ × Option ReleaseReason) × Shared
raise slot closing s =
    let epoch = next_epoch s.requested_epoch in
    let (taken, q) = fill_slot slot s.queue in
    (
      (epoch, taken),
      record s {
        queue = q;
        requested_epoch = epoch;
        cancel = true;
        engaged = false;
        shutting_down = if closing then true else s.shutting_down;
      },
    )

unfoldable pub trigger : ReleaseReason → Shared → Shared
trigger reason s = (raise (note reason) false s).1

unfoldable pub begin_reconnect : Shared → (ℕ × Option ReleaseReason) × Shared
begin_reconnect s = raise take false s

unfoldable pub begin_shutdown : Shared → ℕ × Shared
begin_shutdown s = let (r, s') = raise (note ReleaseReason.shutdown) true s in (r.0, s')

unfoldable pub mark_link_down : ℕ → Shared → Shared
mark_link_down now s =
    let since : Option ℕ = elim s.link_state.down_since [ none ↦ some now | some t ↦ some t ] in
    record s {
      link_state = record (s.link_state) { down_since = since; down = true };
      link_down = true;
    }

abbrev next_generation : ℕ → ℕ
next_generation g = (g + 1) % 2 ^ 64

-- The answer, how long the outage lasted, goes to a log line only.
unfoldable pub mark_link_up : DeviceInfo → Shared → Shared
mark_link_up info s = record s {
  link_state = record {
    down = false;
    down_since = none;
    device_info = some info;
    info_generation = next_generation s.link_state.info_generation;
    info_stale = false;
  };
  link_down = false;
}

unfoldable pub publish_device_info : DeviceInfo → Shared → Shared
publish_device_info info s = record s {
  link_state = record (s.link_state) {
    device_info = some info;
    info_generation = next_generation s.link_state.info_generation;
    info_stale = false;
  };
}

unfoldable pub request_info_refresh : Shared → ℕ × Shared
request_info_refresh s = (s.link_state.info_generation, record s { refresh_info = true })

unfoldable pub note_info_refresh_failed : Shared → Shared
note_info_refresh_failed s = record s {
  link_state = record (s.link_state) {
    info_generation = next_generation s.link_state.info_generation;
    info_stale = true;
  };
}

-- A refused barrier leaves the queue and the counters, and tells so.
abbrev pub admitted :
    Queue → Counters → Result (Queue × Counters) Queue.Overflow → Bool × Queue × Counters
admitted q c (ok (q', c')) = (false, q', c')
admitted q c (err e) = (true, q, c)

-- The `match event` of `Producer::submit`: whether the queue overflowed.
unfoldable pub enqueue : Event → ℕ → ℕ → Queue → Counters → Bool × Queue × Counters
enqueue (Event.pointer_abs x y) epoch now q c =
    let (q', c') = push_abs (min x abs_max) (min y abs_max) epoch now q c in (false, q', c')
enqueue (Event.pointer_rel dx dy) epoch now q c =
    let (q', c') = push_rel dx dy epoch now q c in (false, q', c')
enqueue (Event.wheel delta) epoch now q c =
    let (q', c') = push_wheel delta epoch now q c in (false, q', c')
enqueue (Event.key k down) epoch now q c =
    admitted q c (push_barrier (EntryKind.key k down) epoch now q c)
enqueue (Event.button mask down) epoch now q c =
    admitted q c (push_barrier (EntryKind.button mask down) epoch now q c)

-- What `submit` does behind its three refusals.
unfoldable pub admit : Event → ℕ → Shared → Result (Unit {0}) SubmitError × Shared
admit event now s =
    let (overflowed, q, c) = enqueue event s.requested_epoch now s.queue s.counters in
    let s' = record s { queue = q; counters = c } in
    if overflowed
    then (
      err SubmitError.overflow,
      trigger ReleaseReason.overflow
          (record s' { counters = record c { overflows = bump c.overflows } }),
    )
    else (ok tt, s')

unfoldable pub submit : Event → ℕ → Shared → Result (Unit {0}) SubmitError × Shared
submit event now s =
    if s.shutting_down
    then (err SubmitError.shutting_down, s)
    else if s.engaged
    then if s.link_down then (err SubmitError.link_down, s) else admit event now s
    else (err disengaged, s)

unfoldable pub engage : Shared → Result (Unit {0}) EngageError × Shared
engage s =
    if s.shutting_down
    then (err EngageError.shutting_down, s)
    else if ltb s.acked_epoch s.requested_epoch
    then (err (not_yet_acked s.requested_epoch s.acked_epoch), s)
    else (ok tt, record s { engaged = true })

-- The `match` at the end of `WriterHandle::shutdown`, on whether the writer was joined.
unfoldable pub shutdown_outcome : Bool → ℕ → Shared → ReleaseOutcome
shutdown_outcome joined epoch s =
    if joined
    then elim s.last_release [
      | none ↦ unsent
      | some r ↦
          if ltb s.acked_epoch epoch
          then unsent
          else if ltb r.epoch epoch
          then unsent
          else r.outcome
    ]
    else unsent
