-- ===== src/Viewer/Routing.antt =====
-- src/viewer/app.rs: a host event goes through the routing rule, and to the session when it is for the target. The
-- answer to `TryEngage` and a refused submit are triggers of their own: each is the last action of its list, so that
-- what it feeds back comes behind the list. A paste that `start_paste` begins stands in Viewer/Chrome/Job.
pub mod Masks
pub mod Escape
pub mod Tracking
pub mod Owed
mod Tests
use nano_kvm_usb_rs.Prelude.{ℕ, List, [], ◌∷◌, ◌++◌, Bool, ◌==◌, if◌then◌else◌, Option, none, some}
use nano_kvm_usb_rs.Input.Event.{Event}
use nano_kvm_usb_rs.Proto.Keymap.{KeyCode}
use nano_kvm_usb_rs.Viewer.Session.{Session, Trigger, Action, forward, release_all, reduce, new}
use nano_kvm_usb_rs.Viewer.Chrome.Outstanding.{Outstanding, nothing, set_key, set_button, clear}
use nano_kvm_usb_rs.Viewer.Chrome.Route.{
  Sink, target, chrome, dropped, RouteInputs, KeyAction, route_key, route_pointer, PointerKind,
  resolve_paste_chord, map_key, MouseButton, map_button,
}

pub record App : Type 0 where
  pub session : Session
  pub outstanding : Outstanding

abbrev pub new_app : App
new_app = record { session = new; outstanding = nothing }

-- `route_inputs`: what the rule reads of the rest of the window is an argument.
abbrev pub route_inputs : RouteInputs → App → RouteInputs
route_inputs window app = record window {
  capture = app.session.capture;
  outstanding = app.outstanding;
}

abbrev pub record_event : Event → Outstanding → Outstanding
record_event (Event.key k down) o = set_key k down o
record_event (Event.button mask down) o = set_button mask down o
record_event _ o = o

-- What `perform` does to `outstanding`.
abbrev pub perform : Action → Outstanding → Outstanding
perform (forward event) o = record_event event o
perform (release_all reason) o = clear o
perform _ o = o

unfoldable pub perform_all : List Action → Outstanding → Outstanding
perform_all [] o = o
perform_all (action ∷ actions) o = perform_all actions (perform action o)

-- The actions are what the target hears of.
unfoldable pub feed : Trigger → App → App × List Action
unfolding perform_all
feed trigger app =
    let (next, actions) = reduce app.session trigger in
    (record { session = next; outstanding = perform_all actions app.outstanding }, actions)

abbrev pub click : Sink → ℕ → Bool → App → App × List Action
click target mask down app = if mask == 0 then (app, []) else feed (Trigger.button mask down) app
click chrome mask down app = (app, [])
click dropped mask down app = (app, [])

abbrev pub mask_of : Option ℕ → ℕ
mask_of none = 0
mask_of (some mask) = mask

-- The arm of `MouseInput`.
unfoldable pub mouse_input : RouteInputs → MouseButton → Bool → App → App × List Action
unfolding feed route_pointer
mouse_input window b down app =
    let mask = mask_of (map_button b) in
    click (route_pointer (route_inputs window app) (PointerKind.button mask down)) mask down app

abbrev pub press : Sink → KeyAction → App → App × List Action
press target (KeyAction.forward k down) app = feed (Trigger.key k down) app
press target KeyAction.release app = feed Trigger.release_key app
press target _ app = (app, [])
press chrome action app = (app, [])
press dropped action app = (app, [])

-- The arm of `KeyboardInput`.
unfoldable pub keyboard_input :
    RouteInputs → Option KeyCode → (pressed repeat shift : Bool) → App → App × List Action
unfolding feed route_key map_key resolve_paste_chord
keyboard_input window physical_key pressed repeat shift app =
    let action =
      resolve_paste_chord (map_key physical_key pressed repeat shift) window.paste_running in
    press (route_key (route_inputs window app) action) action app

pub data HostEvent : Type 0 where
  clicked : RouteInputs → MouseButton → (down : Bool) → HostEvent
  typed : RouteInputs → Option KeyCode → (pressed repeat shift : Bool) → HostEvent
  fed : Trigger → HostEvent

unfoldable pub window_event : HostEvent → App → App × List Action
unfolding mouse_input keyboard_input
window_event (clicked window b down) app = mouse_input window b down app
window_event (typed window physical_key pressed repeat shift) app =
    keyboard_input window physical_key pressed repeat shift app
window_event (fed trigger) app = feed trigger app

unfoldable pub run : List HostEvent → App → App × List Action
unfolding window_event
run [] app = (app, [])
run (event ∷ events) app =
    let (app', here) = window_event event app in
    let (app'', later) = run events app' in (app'', here ++ later)
