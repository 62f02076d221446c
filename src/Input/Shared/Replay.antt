-- ===== src/Input/Shared/Replay.antt =====
-- What a submission adds to what the target will see: src/input/mod.rs.
use nano_kvm_usb_rs.Prelude.{min, some}
use nano_kvm_usb_rs.Input.Event.{Event}
use nano_kvm_usb_rs.Input.Queue.{Queue, motion, no_motion, MotionRun}
use nano_kvm_usb_rs.Input.Queue
use nano_kvm_usb_rs.Input.Queue.Order.{Seen, see, FitsI32}

-- The event by itself, as the target sees it.
abbrev pub see_event : Event → Seen → Seen
see_event (Event.key k down) s = see (Queue.key k down) s
see_event (Event.button m down) s = see (Queue.button m down) s
see_event (Event.pointer_abs x y) s =
    see (motion (record no_motion { abs = some (min x 4095, min y 4095) })) s
see_event (Event.pointer_rel dx dy) s = see (motion (record no_motion { dx = dx; dy = dy })) s
see_event (Event.wheel delta) s = see (motion (record no_motion { wheel = delta })) s

-- The deltas of an event do not saturate those of a run that they are added to.
abbrev pub Fits : Event → MotionRun → Type 0
Fits (Event.pointer_rel dx dy) run = FitsI32 run.dx dx × FitsI32 run.dy dy
Fits (Event.wheel delta) run = FitsI32 run.wheel delta
Fits _ run = Unit
