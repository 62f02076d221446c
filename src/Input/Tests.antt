-- ===== src/Input/Tests.antt =====
-- Witnesses for the held state, the queue and the input path.
use nano_kvm_usb_rs.Prelude.{
  ℕ, none, ◌+◌, ◌*◌, ◌≤◌, ◌<◌, ◌^◌, [], ◌∷◌, true, false, some, All, length, arith, ◌≡◌, refl,
}
use nano_kvm_usb_rs.Proto.Report.{modifier, usage}
use nano_kvm_usb_rs.Input.Stats.{no_counts, submitted}
use nano_kvm_usb_rs.Prelude.Int.{pos}
use nano_kvm_usb_rs.Input.Event.{Event}
use nano_kvm_usb_rs.Input.Held.{HeldState, reported_usages, apply_key, report, bit_not}
use nano_kvm_usb_rs.Input.Held
use nano_kvm_usb_rs.Input.Held.Slots
use nano_kvm_usb_rs.Input.Held.Slots.{AreDistinct}
use nano_kvm_usb_rs.Input.Held.Apply.{
  apply_key-IsValid, reported_usages-apply_key, slots_after, apply_key-Answers, Answers,
}
use nano_kvm_usb_rs.Input.Queue.{Queue, Entry, drain_upto}
use nano_kvm_usb_rs.Input.Queue
use nano_kvm_usb_rs.Input.Queue.Invariant
use nano_kvm_usb_rs.Input.Queue.Invariant.{new-IsValid}
use nano_kvm_usb_rs.Input.Queue.Drain.{drain_upto-Discards, of_epoch, count_upto}
use nano_kvm_usb_rs.Input.Shared.{
  Shared, new, submit, admit, enqueue, raise, fill_slot, begin_shutdown, request_info_refresh,
  note_info_refresh_failed,
}
use nano_kvm_usb_rs.Input.Queue.Order.{Seen}
use nano_kvm_usb_rs.Input.Shared.Enqueue.{enqueue-IsValid}
use nano_kvm_usb_rs.Input.Writer.{
  latch, record_release, acknowledge, next_entry, note_dequeued, is_discarded, should_exit,
  take_refresh,
}
use nano_kvm_usb_rs.Input.Protocol.{
  idle, latched, recorded, holding, writing, Reach, here, next, call, move, submits, shuts_down,
  dequeues, writes, latches, releases, acknowledges, exits, asks_refresh, takes_refresh, refreshing,
  asks, asking, fails_refresh,
}
use nano_kvm_usb_rs.Input.Protocol.Settles.{Settles}
use nano_kvm_usb_rs.Input.Protocol.Safety.{
  spawned, with_link, written-current, engaged-clean, exit-acknowledged,
}

-- Two keys held, one of them behind a shift.
abbrev two_keys : HeldState
two_keys = record {
  keys =
      record { usage = 4; status = Held.reported }
      ∷ record { usage = 5; status = Held.reported }
      ∷ [];
  modifiers = 2;
  buttons = 0;
}

two_keys-IsValid : Held.Slots.IsValid two_keys
unfolding Held.holds Held.reported_count
two_keys-IsValid = record { distinct = (refl, (refl, tt)); fits = omega arith }

apply_key-IsValid_example : Held.Slots.IsValid (apply_key (usage 4) false two_keys).1
apply_key-IsValid_example = apply_key-IsValid (usage 4) false two_keys two_keys-IsValid

reported_usages-apply_key_example :
    reported_usages (apply_key (usage 4) false two_keys).1.keys
    ≡ slots_after (usage 4) false true (reported_usages two_keys.keys)
unfolding Held.holds
reported_usages-apply_key_example =
    reported_usages-apply_key (usage 4) false two_keys two_keys-IsValid

apply_key-Answers_example :
    Answers
      (apply_key (modifier 1) true two_keys).0
      (report two_keys)
      (report (apply_key (modifier 1) true two_keys).1)
apply_key-Answers_example = apply_key-Answers (modifier 1) true two_keys

nothing_young : Queue.Invariant.AreUpto 0 (Queue.new 2).entries
unfolding Queue.new
nothing_young = tt

enqueue-IsValid_example :
    Queue.Invariant.IsValid (enqueue (Event.key (usage 4) true) 0 9 (Queue.new 2) no_counts).1
enqueue-IsValid_example =
    enqueue-IsValid (Queue.new 2) no_counts 0 9 (new-IsValid 2) nothing_young
      (Event.key (usage 4) true)

-- A key and a run of an ended session, with a run of the next one behind them.
abbrev old_key : Entry
old_key = record { kind = Queue.key (usage 4) true; epoch = 1; enqueued = 3 }

abbrev run_at : ℕ → Entry
run_at epoch = record {
  kind = Queue.motion (record Queue.no_motion { dx = pos 5 });
  epoch = epoch;
  enqueued = 4;
}

abbrev two_sessions : Queue
two_sessions = record (Queue.new 2) { entries = old_key ∷ run_at 1 ∷ run_at 2 ∷ []; barriers = 1 }

two_sessions-IsValid : Queue.Invariant.IsValid two_sessions
unfolding Queue.new Queue.count_barriers
two_sessions-IsValid = record {
  counted = refl;
  bounded = omega arith;
  positive = omega arith;
  linked = (omega arith, refl, (omega arith, refl, tt));
}

drain_upto-Discards_example :
    let r = drain_upto 1 two_sessions no_counts in
    Queue.Invariant.IsValid r.1
    × All (λ e. 1 < e.epoch) r.1.entries
    × (of_epoch 2 r.1.entries ≡ of_epoch 2 two_sessions.entries)
    × (r.0 ≡ count_upto 1 two_sessions.entries)
drain_upto-Discards_example =
    drain_upto-Discards 1 2 two_sessions no_counts two_sessions-IsValid (omega arith)

two_are_discarded : (drain_upto 1 two_sessions no_counts).0 ≡ 2
unfolding drain_upto Queue.retain_after
two_are_discarded = refl

-- A key is submitted, dequeued and written.
abbrev press : Event
press = Event.key (usage 4) true

abbrev entry : Entry
entry = record { kind = Queue.key (usage 4) true; epoch = 0; enqueued = 9 }

abbrev with_press : Shared
with_press = (submit press 9 (new 2)).1

abbrev dequeued : Shared
dequeued = note_dequeued 5 (next_entry with_press).1

starts_with_room : (new 2).requested_epoch + 1 < 2 ^ 64
unfolding new
starts_with_room = omega arith

next_is_entry : (next_entry with_press).0 ≡ some entry
unfolding next_entry submit new admit enqueue Queue.push_barrier Queue.new Queue.pop
next_is_entry = refl

entry_is_current : is_discarded entry dequeued ≡ false
unfolding is_discarded note_dequeued next_entry submit new admit enqueue Queue.push_barrier
    Queue.new Queue.pop
entry_is_current = refl

after_press : Reach (spawned 2) (record { shared = with_press; phase = idle })
after_press = next here (call (new 2) with_press idle (submits press 9 (new 2) starts_with_room))

press_is_written : Reach (spawned 2) (record { shared = dequeued; phase = writing entry })
press_is_written =
    next
      (next after_press
        (move with_press dequeued idle (holding entry) (dequeues with_press entry 5 next_is_entry)))
      (move dequeued dequeued (holding entry) (writing entry)
        (writes dequeued entry entry_is_current))

written-current_example : entry.epoch ≡ dequeued.acked_epoch
written-current_example =
    written-current (with_link 2) (record { shared = dequeued; phase = writing entry }) entry
      press_is_written refl

engaged_with_press : (with_press.engaged ≡ true) × (with_press.link_down ≡ false)
unfolding submit new admit enqueue Queue.push_barrier Queue.new
engaged_with_press = (refl, refl)

engaged-clean_example :
    (with_press.acked_epoch ≡ with_press.requested_epoch)
    × All (λ e. with_press.requested_epoch ≡ e.epoch) with_press.queue.entries
    × (length with_press.queue.entries ≤ 2 * with_press.queue.max_barriers + 1)
engaged-clean_example =
    engaged-clean (with_link 2) (record { shared = with_press; phase = idle }) after_press
      engaged_with_press.0 engaged_with_press.1

-- A shutdown, its release written and acknowledged, and the writer's return.
abbrev shut : Shared
shut = (begin_shutdown (new 2)).1

abbrev shut_latched : Shared
shut_latched = (latch shut).1

abbrev shut_recorded : Shared
shut_recorded =
    record_release
      (record { epoch = (latch shut).0.0; reason = (latch shut).0.1; outcome = submitted })
      shut_latched

abbrev shut_done : Shared
shut_done = acknowledge (latch shut).0.0 shut_recorded

shut-cancel : shut.cancel ≡ true
unfolding begin_shutdown raise fill_slot new
shut-cancel = refl

shut_done-exits : should_exit shut_done ≡ true
unfolding should_exit acknowledge record_release latch begin_shutdown raise fill_slot new drain_upto
    Queue.new Queue.note_reason
shut_done-exits = refl

after_shutdown : Reach (spawned 2) (record { shared = shut_done; phase = idle })
after_shutdown =
    next
      (next
        (next (next here (call (new 2) shut idle (shuts_down (new 2) starts_with_room))) (
          move shut shut_latched idle (latched (latch shut).0.0 (latch shut).0.1)
            (latches shut shut-cancel)))
        (move shut_latched shut_recorded (latched (latch shut).0.0 (latch shut).0.1)
          (recorded (latch shut).0.0)
          (releases shut_latched (latch shut).0.0 (latch shut).0.1 submitted)))
      (move shut_recorded shut_done (recorded (latch shut).0.0) idle
        (acknowledges shut_recorded (latch shut).0.0))

exit-acknowledged_example :
    (shut_done.acked_epoch ≡ shut_done.requested_epoch) × (shut_done.engaged ≡ false)
exit-acknowledged_example =
    exit-acknowledged (with_link 2) after_shutdown (exits shut_done shut_done-exits)

-- A relative motion that is added to the run at the tail.
abbrev one_run : Queue
one_run = record (Queue.new 2) {
  entries =
      record {
        kind = Queue.motion (record Queue.no_motion { abs = some (1, 2); dx = pos 40 });
        epoch = 0;
        enqueued = 3;
      }
      ∷ [];
}

abbrev nothing_seen : Seen
nothing_seen = record {
  place = record { pointer = none; x = pos 0; y = pos 0; turned = pos 0 };
  transitions = [];
}

-- A refresh that is asked for is served once, and the next entry is then given again.
abbrev asked : Shared
asked = (request_info_refresh with_press).1

abbrev served : Shared
served = note_info_refresh_failed (take_refresh asked)

asked-refresh_info : asked.refresh_info ≡ true
unfolding request_info_refresh
asked-refresh_info = refl

asked-link_down : (take_refresh asked).link_down ≡ false
unfolding take_refresh request_info_refresh submit new admit enqueue Queue.push_barrier Queue.new
asked-link_down = refl

after_refresh : Reach (spawned 2) (record { shared = served; phase = idle })
after_refresh =
    next
      (next
        (next (next after_press (call with_press asked idle (asks_refresh with_press))) (
          move asked (take_refresh asked) idle refreshing (takes_refresh asked asked-refresh_info)))
        (move (take_refresh asked) (take_refresh asked) refreshing asking
          (asks (take_refresh asked) asked-link_down)))
      (move (take_refresh asked) served asking idle (fails_refresh (take_refresh asked)))

entry_behind_refresh : (next_entry served).0 ≡ some entry
unfolding next_entry note_info_refresh_failed take_refresh request_info_refresh submit new admit
    enqueue Queue.push_barrier Queue.new Queue.pop
entry_behind_refresh = refl
