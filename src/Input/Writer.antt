-- ===== src/Input/Writer.antt =====
-- src/input/writer.rs: the critical sections of the writer, one function each.
pub mod Motion
mod Tests
use nano_kvm_usb_rs.Prelude.{
  ℕ, ◌+◌, ◌%◌, ◌^◌, Bool, true, false, ◌||◌, Option, none, some, ltb, ◌==◌, if◌then◌else◌,
}
use nano_kvm_usb_rs.Input.Stats.{
  ReleaseReason, user_requested, reconnected, severity, ReleaseRecord, bump, record_time_in_queue,
}
use nano_kvm_usb_rs.Input.Queue.{Entry, drain_upto, pop}
use nano_kvm_usb_rs.Input.Shared.{Shared}

-- `unwrap_or`.
abbrev reason_or : ReleaseReason → Option ReleaseReason → ReleaseReason
reason_or d none = d
reason_or d (some r) = r

-- The first critical section of `cancellation_sequence`: the epoch that it latches, the reason that
-- it takes, and the entries that it discards.
unfoldable pub latch : Shared → (ℕ × ReleaseReason) × Shared
latch s =
    let epoch = s.requested_epoch in
    let taken = record (s.queue) { pending_reason = none } in
    let (dropped, q, c) = drain_upto epoch taken s.counters in
    ((epoch, reason_or user_requested s.queue.pending_reason), record s { queue = q; counters = c })

-- `last_release` and `cancellations`, behind the release that was written or was not.
unfoldable pub record_release : ReleaseRecord → Shared → Shared
record_release r s = record s {
  last_release = some r;
  counters = record (s.counters) { cancellations = bump s.counters.cancellations };
}

-- The last critical section: a newer trigger keeps the flag.
unfoldable pub acknowledge : ℕ → Shared → Shared
acknowledge epoch s = record s {
  acked_epoch = epoch;
  cancel = if s.requested_epoch == epoch then false else s.cancel;
}

-- The reason of a commissioning, from the one that `begin_reconnect` took.
unfoldable pub commission_reason : Option ReleaseReason → ReleaseReason
commission_reason none = reconnected
commission_reason (some r) = if ltb (severity reconnected) (severity r) then r else reconnected

-- The drain of `commission_steps`, and its count.
unfoldable pub discard_queued : ℕ → Shared → Shared
discard_queued epoch s =
    let (dropped, q, c) = drain_upto epoch s.queue s.counters in
    record s {
      queue = q;
      counters = record c {
        queue_discarded_on_reconnect = (c.queue_discarded_on_reconnect + dropped) % 2 ^ 64;
      };
    }

-- The critical section of `next_entry`.
unfoldable pub next_entry : Shared → Option Entry × Shared
next_entry s =
    if s.cancel || (s.shutting_down || s.refresh_info)
    then (none, s)
    else (let (e, q, c) = pop s.queue s.counters in (e, record s { queue = q; counters = c }))

-- How `refresh_device_info` begins: a request that is made from here on is served again.
unfoldable pub take_refresh : Shared → Shared
take_refresh s = record s { refresh_info = false }

-- Whether the entry that `next_entry` gave is discarded, which `run` counts.
unfoldable pub is_discarded : Entry → Shared → Bool
is_discarded e s = ltb e.epoch s.acked_epoch || s.link_down

unfoldable pub count_discarded : Shared → Shared
count_discarded s = record s {
  counters = record (s.counters) { stale_discarded = bump s.counters.stale_discarded };
}

unfoldable pub note_dequeued : ℕ → Shared → Shared
note_dequeued waited s = record s { counters = record_time_in_queue waited s.counters }

unfoldable pub should_exit : Shared → Bool
should_exit s = if s.shutting_down then (if s.cancel then false else true) else false
