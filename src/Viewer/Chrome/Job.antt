-- ===== src/Viewer/Chrome/Job.antt =====
-- src/viewer/chrome/paste.rs: a paste in progress. An instant and a pace are numbers of nanoseconds, and
-- the sums of the two do not reach the clock's end. The text of a failure is the failure.
pub mod Progress
pub mod Turns
pub mod Playing
pub mod Pasted
use nano_kvm_usb_rs.Prelude.{
  ℕ, suc, ◌+◌, ◌-◌, List, [], ◌∷◌, ◌++◌, map, Bool, true, false, Option, none, some, ltb, ◌==◌,
  if◌then◌else◌, length, get_elem?,
}
use nano_kvm_usb_rs.Proto.Report.{HidKey}
use nano_kvm_usb_rs.Input.Event.{Event}
use nano_kvm_usb_rs.Input.Stats.{
  ReleaseReason, focus_lost, capture_released, user_requested, overflow, link_down, reconnected,
  shutdown,
}
use nano_kvm_usb_rs.Viewer.Chrome.Outstanding.{
  Outstanding, nothing, set_key, set_button, held_keys, held_buttons,
}

pub data Failure : Type 0 where
  not_a_transition queue_overflow connection_lost connection_restored capture_ended : Failure
  refused : List ℕ → Failure

pub data PasteOutcome : Type 0 where
  done : ℕ → PasteOutcome
  cancelled : ℕ → ℕ → PasteOutcome
  failed : Failure → ℕ → ℕ → PasteOutcome

pub data Ending : Type 0 where
  ending_cancelled : Ending
  ending_failed : Failure → Ending

unfoldable pub ending_for : ReleaseReason → Ending
ending_for user_requested = ending_cancelled
ending_for focus_lost = ending_cancelled
ending_for shutdown = ending_cancelled
ending_for overflow = ending_failed queue_overflow
ending_for link_down = ending_failed connection_lost
ending_for reconnected = ending_failed connection_restored
ending_for capture_released = ending_failed capture_ended

pub record PasteJob : Type 0 where
  pub steps : List Event
  pub prelude : ℕ
  pub sent : ℕ
  pub pace : ℕ
  pub next_due : Option ℕ
  pub held : Outstanding
  pub outcome : Option PasteOutcome

abbrev pub key_up : HidKey → Event
key_up k = Event.key k false

abbrev pub button_up : ℕ → Event
button_up mask = Event.button mask false

-- The releases that come first.
unfoldable pub releases : Outstanding → List Event
releases o = map key_up (held_keys o) ++ map button_up (held_buttons o)

unfoldable pub new : Outstanding → List Event → ℕ → PasteJob
new o body pace = record {
  steps = releases o ++ body;
  prelude = length (releases o);
  sent = 0;
  pace = pace;
  next_due = none;
  held = nothing;
  outcome = none;
}

abbrev pub total : PasteJob → ℕ
total j = length j.steps

unfoldable pub remaining : PasteJob → ℕ
remaining j = total j - j.sent

abbrev pub is_over : Option PasteOutcome → Bool
is_over none = false
is_over (some o) = true

-- `next_due.is_some_and(|due| now < due)`.
abbrev pub is_early : Option ℕ → ℕ → Bool
is_early none now = false
is_early (some due) now = ltb now due

unfoldable pub next_step : ℕ → PasteJob → Option Event
next_step now j =
    if is_over j.outcome
    then none
    else if is_early j.next_due now
    then none
    else get_elem? j.steps j.sent

unfoldable pub due_at : PasteJob → Option ℕ
due_at j = if is_over j.outcome then none else j.next_due

unfoldable pub fail : Failure → PasteJob → PasteJob
fail reason j =
    if is_over j.outcome then j else record j { outcome = some (failed reason j.sent (total j)) }

-- Behind the match of `delivered`.
unfoldable pub advance : ℕ → Outstanding → PasteJob → PasteJob
advance now held j = record j {
  held = held;
  sent = suc j.sent;
  next_due = some (now + j.pace);
  outcome = if suc j.sent == total j then some (done (suc j.sent)) else j.outcome;
}

-- What the target holds behind a step, for the steps that a job may have.
abbrev pub held_behind : Option Event → Outstanding → Option Outstanding
held_behind (some (Event.key k down)) o = some (set_key k down o)
held_behind (some (Event.button mask false)) o = some (set_button mask false o)
held_behind e o = none

abbrev pub deliver : Option Outstanding → ℕ → PasteJob → PasteJob
deliver (some held) now j = advance now held j
deliver none now j = fail not_a_transition j

unfoldable pub delivered : ℕ → PasteJob → PasteJob
unfolding advance fail
delivered now j =
    if is_over j.outcome then j else deliver (held_behind (get_elem? j.steps j.sent) j.held) now j

-- The outcome of an ending and what is still held.
pub record Cancellation : Type 0 where
  pub outcome : PasteOutcome
  pub still_held : Outstanding

abbrev pub outcome_of : Ending → ℕ → ℕ → PasteOutcome
outcome_of ending_cancelled sent total = cancelled sent total
outcome_of (ending_failed reason) sent total = failed reason sent total

abbrev pub outcome_or : PasteOutcome → Option PasteOutcome → PasteOutcome
outcome_or o none = o
outcome_or o (some p) = p

unfoldable pub end : Ending → PasteJob → Cancellation × PasteJob
end ending j =
    let outcome = outcome_or (outcome_of ending j.sent (total j)) j.outcome in
    (record { outcome = outcome; still_held = j.held }, record j { outcome = some outcome })

unfoldable pub cancel : PasteJob → Cancellation × PasteJob
unfolding end
cancel j = end ending_cancelled j
