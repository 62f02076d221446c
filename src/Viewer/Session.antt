-- ===== src/Viewer/Session.antt =====
-- src/viewer/state.rs: the reducer of the input-capture session. A `&mut` in the source is a new
-- session here.
pub mod Edges
pub mod Safety
use nano_kvm_usb_rs.Prelude.{
  ℕ, List, [], ◌∷◌, ◌++◌, Bool, true, false, Option, none, some, ◌==◌, if◌then◌else◌,
}
use nano_kvm_usb_rs.Proto.Report.{HidKey, modifier, usage, button_left}
use nano_kvm_usb_rs.Input.Stats.{ReleaseReason, ReleaseOutcome, ReleaseRecord}
use nano_kvm_usb_rs.Input.Event.{Event, SubmitError}

pub data CaptureState : Type 0 where
  released engaging captured : CaptureState

pub data Notice : Type 0 where
  overflow link_down : Notice

pub record Session : Type 0 where
  pub capture : CaptureState
  pub consumed_left : Bool
  pub consumed_enter : Bool
  pub closing : Bool
  pub notice : Option Notice

-- `Session::new`.
abbrev pub new : Session
new = record {
  capture = released;
  consumed_left = false;
  consumed_enter = false;
  closing = false;
  notice = none;
}

pub data Trigger : Type 0 where
  key : HidKey → Bool → Trigger
  button : ℕ → Bool → Trigger
  motion : Event → Trigger
  release_key : Trigger
  focus_lost : Trigger
  inhibitor_inactive : Trigger
  submit_failed : SubmitError → Trigger
  close_requested : Trigger
  engage_succeeded : Trigger
  engage_deferred : Trigger
  retry : Trigger

pub data Action : Type 0 where
  arm_inhibitor disarm_inhibitor grab_pointer release_pointer try_engage : Action
  release_all : ReleaseReason → Action
  forward : Event → Action
  exit : Action

unfoldable pub leave_capture : ReleaseReason → List Action
leave_capture reason = release_all reason ∷ disarm_inhibitor ∷ release_pointer ∷ []

unfoldable pub begin_capture : List Action
begin_capture = arm_inhibitor ∷ grab_pointer ∷ try_engage ∷ []

unfoldable pub notice_for : SubmitError → Option Notice
notice_for SubmitError.overflow = some overflow
notice_for SubmitError.link_down = some link_down
notice_for SubmitError.disengaged = none
notice_for SubmitError.shutting_down = none

unfoldable pub reason_for : SubmitError → ReleaseReason
reason_for SubmitError.overflow = ReleaseReason.overflow
reason_for SubmitError.link_down = ReleaseReason.link_down
reason_for SubmitError.disengaged = ReleaseReason.capture_released
reason_for SubmitError.shutting_down = ReleaseReason.shutdown

unfoldable pub release : Session → ReleaseReason → Session × List Action
unfolding leave_capture
release s reason = (
  record s { capture = released; consumed_left = false; consumed_enter = false },
  leave_capture reason,
)

-- Which of the two consumed edges `capturing_edge` works on.
pub data Edge : Type 0 where
  left enter : Edge

abbrev pub consumed : Edge → Session → Bool
consumed left s = s.consumed_left
consumed enter s = s.consumed_enter

abbrev pub set_consumed : Edge → Bool → Session → Session
set_consumed left b s = record s { consumed_left = b }
set_consumed enter b s = record s { consumed_enter = b }

unfoldable pub capturing_edge : Session → Bool → Edge → Event → Session × List Action
unfolding begin_capture
capturing_edge s true edge event = elim s.capture [
  | captured ↦ (set_consumed edge false s, forward event ∷ [])
  | released ↦ (record (set_consumed edge true s) { capture = engaging }, begin_capture)
  | engaging ↦ (set_consumed edge true s, try_engage ∷ [])
]
capturing_edge s false edge event =
    if consumed edge s then (set_consumed edge false s, []) else elim s.capture [
      | captured ↦ (s, forward event ∷ [])
      | engaging ↦ (s, try_engage ∷ [])
      | released ↦ (s, [])
    ]

unfoldable pub plain_input : Session → Event → Session × List Action
plain_input s event = elim s.capture [
  | captured ↦ (s, forward event ∷ [])
  | engaging ↦ (s, try_engage ∷ [])
  | released ↦ (s, [])
]

-- The arms with the guard `s.capture != Released`.
unfoldable pub release_if_held : Session → ReleaseReason → Session × List Action
unfolding release
release_if_held s reason = elim s.capture [
  | released ↦ (s, [])
  | engaging ↦ release s reason
  | captured ↦ release s reason
]

abbrev pub noticed : Option Notice → Session → Session
noticed none s = s
noticed (some n) s = record s { notice = some n }

unfoldable pub fail_submit : Session → SubmitError → Session × List Action
unfolding release notice_for reason_for
fail_submit s e = elim s.capture [
  | released ↦ (s, [])
  | engaging ↦
      (let (s', actions) = release s (reason_for e) in (noticed (notice_for e) s', actions))
  | captured ↦
      (let (s', actions) = release s (reason_for e) in (noticed (notice_for e) s', actions))
]

-- The arms with the guard `s.capture == Engaging`.
abbrev pub if_engaging : Session → Session × List Action → Session × List Action
if_engaging s r = elim s.capture [ engaging ↦ r | released ↦ (s, []) | captured ↦ (s, []) ]

-- `Some(key) == input_map::enter_key()`: Enter is the usage 0x28 of `proto::keymap`.
unfoldable pub is_enter : HidKey → Bool
is_enter (modifier bit) = false
is_enter (usage u) = u == 0x28

-- The `match` of `reduce`, behind the two tests for a close.
unfoldable pub react : Session → Trigger → Session × List Action
unfolding is_enter capturing_edge plain_input release_if_held fail_submit
react s (button mask down) =
    if mask == button_left
    then capturing_edge s down left (Event.button button_left down)
    else plain_input s (Event.button mask down)
react s (key k down) =
    if is_enter k
    then capturing_edge s down enter (Event.key k down)
    else plain_input s (Event.key k down)
react s (motion e) = plain_input s e
react s focus_lost = release_if_held s ReleaseReason.focus_lost
react s inhibitor_inactive = release_if_held s ReleaseReason.user_requested
react s release_key = release_if_held s ReleaseReason.user_requested
react s (submit_failed e) = fail_submit s e
react s engage_succeeded = if_engaging s (record s { capture = captured; notice = none }, [])
react s retry = if_engaging s (s, try_engage ∷ [])
react s engage_deferred = (s, [])
react s close_requested = (s, [])

abbrev pub is_close : Trigger → Bool
is_close close_requested = true
is_close _ = false

unfoldable pub reduce : Session → Trigger → Session × List Action
unfolding react
reduce s t =
    if is_close t
    then (if s.closing
        then (s, exit ∷ [])
        else (let (s', actions) = release s ReleaseReason.shutdown in
            (record s' { closing = true }, actions ++ (exit ∷ []))))
    else if s.closing
    then (s, [])
    else react s t
