-- ===== src/Input/Protocol.antt =====
-- The writer's loop of src/input/writer.rs, interleaved with any number of producers and with the
-- handle of src/input/mod.rs: one step for each critical section, in any order.
pub mod Invariant
pub mod Latch
pub mod Moves
pub mod Calls
pub mod Safety
pub mod Settles
use nano_kvm_usb_rs.Prelude.{ℕ, ◌+◌, ◌<◌, ◌^◌, Bool, true, false, Option, none, some, ◌≡◌}
use nano_kvm_usb_rs.Proto.DeviceInfo.{DeviceInfo}
use nano_kvm_usb_rs.Input.Stats.{ReleaseReason, ReleaseOutcome, ReleaseRecord, submitted, unsent}
use nano_kvm_usb_rs.Input.Event.{Event}
use nano_kvm_usb_rs.Input.Queue.{Entry}
use nano_kvm_usb_rs.Input.Shared.{
  Shared, submit, trigger, engage, begin_shutdown, begin_reconnect, mark_link_down, mark_link_up,
  publish_device_info, note_info_refresh_failed, request_info_refresh,
}
use nano_kvm_usb_rs.Input.Writer.{
  latch, record_release, acknowledge, commission_reason, discard_queued, next_entry, is_discarded,
  count_discarded, note_dequeued, should_exit, take_refresh,
}

-- Where the writer stands between two critical sections.
pub data Phase : Type 0 where
  -- at the top of `run`, or waiting
  idle : Phase
  -- an entry dequeued and not yet checked
  holding : Entry → Phase
  -- an entry whose reports are being written
  writing : Entry → Phase
  -- `cancellation_sequence`, its epoch latched and the queue drained
  latched : ℕ → ReleaseReason → Phase
  -- `commission`, its epoch raised
  commissioning : ℕ → ReleaseReason → Phase
  -- `commission`, the queue drained
  drained : ℕ → ReleaseReason → Phase
  -- the release recorded, not yet acknowledged
  recorded : ℕ → Phase
  -- `refresh_device_info`, the request taken
  refreshing : Phase
  -- `refresh_device_info`, the information asked for
  asking : Phase
  -- `run` has returned
  exited : Phase

pub record System : Type 0 where
  pub shared : Shared
  pub phase : Phase

-- The epoch, a `u64`, does not wrap at the next trigger.
abbrev pub HasRoom : Shared → Type 0
HasRoom s = s.requested_epoch + 1 < 2 ^ 64

-- The calls of producers and of the handle, and what the writer reports of its link, at any time.
pub data Call : Shared → Shared → Type 0 where
  submits : (e : Event) (now : ℕ) (s : Shared) → HasRoom s → Call s (submit e now s).1
  triggers : (r : ReleaseReason) (s : Shared) → HasRoom s → Call s (trigger r s)
  engages : (s : Shared) → Call s (engage s).1
  shuts_down : (s : Shared) → HasRoom s → Call s (begin_shutdown s).1
  loses_link : (now : ℕ) (s : Shared) → Call s (mark_link_down now s)
  asks_refresh : (s : Shared) → Call s (request_info_refresh s).1

-- The writer's own critical sections, with its place before and behind each.
pub data Move : Shared → Phase → Shared → Phase → Type 0 where
  latches :
      (s : Shared) → s.cancel ≡ true → Move s idle (latch s).1 (latched (latch s).0.0 (latch s).0.1)
  releases :
      (s : Shared) (e : ℕ) (r : ReleaseReason) (o : ReleaseOutcome)
      → Move s
          (latched e r)
          (record_release (record { epoch = e; reason = r; outcome = o }) s)
          (recorded e)
  acknowledges : (s : Shared) (e : ℕ) → Move s (recorded e) (acknowledge e s) idle
  begins_commission :
      (s : Shared)
      → s.link_down ≡ true
      → HasRoom s
      → Move s idle
          (begin_reconnect s).1
          (commissioning (begin_reconnect s).0.0 (commission_reason (begin_reconnect s).0.1))
  drains :
      (s : Shared) (e : ℕ) (r : ReleaseReason)
      → Move s (commissioning e r) (discard_queued e s) (drained e r)
  -- the preamble failed, and nothing was drained
  fails_resync :
      (s : Shared) (e : ℕ) (r : ReleaseReason)
      → Move s
          (commissioning e r)
          (record_release (record { epoch = e; reason = r; outcome = unsent }) s)
          (recorded e)
  -- the release or the information request failed
  rejects :
      (s : Shared) (e : ℕ) (r : ReleaseReason)
      → Move s
          (drained e r)
          (record_release (record { epoch = e; reason = r; outcome = unsent }) s)
          (recorded e)
  accepts :
      (s : Shared) (e : ℕ) (r : ReleaseReason) (i : DeviceInfo)
      → Move s
          (drained e r)
          (mark_link_up i
            (record_release (record { epoch = e; reason = r; outcome = submitted }) s))
          (recorded e)
  dequeues :
      (s : Shared) (e : Entry) (waited : ℕ)
      → (next_entry s).0 ≡ some e
      → Move s idle (note_dequeued waited (next_entry s).1) (holding e)
  discards :
      (s : Shared) (e : Entry)
      → is_discarded e s ≡ true
      → Move s (holding e) (count_discarded s) idle
  writes : (s : Shared) (e : Entry) → is_discarded e s ≡ false → Move s (holding e) s (writing e)
  finishes : (s : Shared) (e : Entry) → Move s (writing e) s idle
  -- `refresh_device_info`: a link that is down is not asked
  takes_refresh : (s : Shared) → s.refresh_info ≡ true → Move s idle (take_refresh s) refreshing
  refuses_refresh :
      (s : Shared) → s.link_down ≡ true → Move s refreshing (note_info_refresh_failed s) idle
  asks : (s : Shared) → s.link_down ≡ false → Move s refreshing s asking
  publishes : (s : Shared) (i : DeviceInfo) → Move s asking (publish_device_info i s) idle
  -- no link, no answer, or one that does not parse
  fails_refresh : (s : Shared) → Move s asking (note_info_refresh_failed s) idle
  exits : (s : Shared) → should_exit s ≡ true → Move s idle s exited

pub data Step : System → System → Type 0 where
  call :
      (s t : Shared) (p : Phase)
      → Call s t
      → Step (record { shared = s; phase = p }) (record { shared = t; phase = p })
  move :
      (s t : Shared) (p q : Phase)
      → Move s p t q
      → Step (record { shared = s; phase = p }) (record { shared = t; phase = q })

pub data Reach (s : System) : System → Type 0 where
  here : Reach s s
  next : {t u : System} → Reach s t → Step t u → Reach s u
