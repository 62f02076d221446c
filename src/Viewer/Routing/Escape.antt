-- ===== src/Viewer/Routing/Escape.antt =====
-- src/viewer/app.rs with src/viewer/input_map.rs and src/viewer/chrome/route.rs: the release key.
use nano_kvm_usb_rs.Prelude.{Bool, true, false, List, ◌≡◌, ◌≢◌, refl, arith, some}
use nano_kvm_usb_rs.Proto.Keymap.{pause}
use nano_kvm_usb_rs.Input.Stats.{ReleaseReason}
use nano_kvm_usb_rs.Viewer.Session.{released, leave_capture, reduce, Trigger, Action}
use nano_kvm_usb_rs.Viewer.Chrome.Outstanding.{nothing, clear}
use nano_kvm_usb_rs.Viewer.Chrome.Route.{RouteInputs, map_key, resolve_paste_chord, KeyAction}
use nano_kvm_usb_rs.Viewer.Routing.{App, keyboard_input, feed}

-- A `Pause` press is the release key, also with Shift while a paste runs.
pause-release :
    (shift paste_running : Bool)
    → (shift ≡ true → paste_running ≡ true)
    → resolve_paste_chord (map_key (some pause) true false shift) paste_running ≡ KeyAction.release
unfolding map_key resolve_paste_chord
pause-release true true h = refl
pause-release true false h = ground (arith, h refl)
pause-release false paste_running h = refl

-- The session has left capture, nothing is recorded as held, and the actions are the release-all and the rest of it.
abbrev pub IsOut : App × List Action → Type 0
IsOut next =
    (next.0.session.capture ≡ released)
    × (next.0.outstanding ≡ nothing)
    × (next.1 ≡ leave_capture ReleaseReason.user_requested)

feed-release_key :
    (app : App)
    → app.session.closing ≡ false
    → app.session.capture ≢ released
    → IsOut (feed Trigger.release_key app)
unfolding feed reduce leave_capture clear
feed-release_key app running held = ground arith

-- With `Pause` the user gets out of a session that captures or is about to, whatever the flags of the window are: a
-- press that is no repeat, without Shift or while a paste runs, and before the window closes.
pub pause_leaves :
    (window : RouteInputs) (shift : Bool) (app : App)
    → (shift ≡ true → window.paste_running ≡ true)
    → app.session.closing ≡ false
    → app.session.capture ≢ released
    → IsOut (keyboard_input window (some pause) true false shift app)
unfolding keyboard_input
pause_leaves window shift app h running held =
    rw (pause-release shift window.paste_running h) (feed-release_key app running held)
