-- ===== src/Viewer/Chrome/Route.antt =====
-- src/viewer/chrome/route.rs and src/viewer/input_map.rs: what a key event means, and which of target and chrome an
-- event is for.
use nano_kvm_usb_rs.Prelude.{
  ℕ, Bool, true, false, not, ◌&&◌, ◌||◌, if◌then◌else◌, Option, none, some,
}
use nano_kvm_usb_rs.Proto.Report.{HidKey}
use nano_kvm_usb_rs.Proto.Keymap.{KeyCode, pause, hid_key}
use nano_kvm_usb_rs.Viewer.Session.{CaptureState, captured}
use nano_kvm_usb_rs.Viewer.Chrome.Outstanding.{Outstanding, holds_key, holds_button}

pub data Sink : Type 0 where
  target chrome dropped : Sink

pub data PointerKind : Type 0 where
  motion wheel : PointerKind
  button : (mask : ℕ) → (down : Bool) → PointerKind

-- Of src/viewer/app.rs.
pub data PointerMode : Type 0 where
  absolute relative : PointerMode

pub record RouteInputs : Type 0 where
  pub capture : CaptureState
  pub pointer : PointerMode
  pub popover_open : Bool
  pub modal_open : Bool
  pub pointer_over_chrome : Bool
  pub paste_running : Bool
  pub pointer_locked : Bool
  pub outstanding : Outstanding
  pub paste_held : Outstanding

pub data KeyAction : Type 0 where
  forward : (key : HidKey) → (down : Bool) → KeyAction
  release paste swallowed unmapped : KeyAction

abbrev pub is_captured : CaptureState → Bool
is_captured captured = true
is_captured _ = false

abbrev pub is_relative : PointerMode → Bool
is_relative relative = true
is_relative absolute = false

unfoldable pub chrome_unreachable : RouteInputs → Bool
chrome_unreachable i = is_captured i.capture && (is_relative i.pointer && i.pointer_locked)

unfoldable pub route_key : RouteInputs → KeyAction → Sink
unfolding chrome_unreachable
route_key i release = target
route_key i paste = target
route_key i swallowed = dropped
route_key i unmapped = dropped
route_key i (forward key down) =
    if not down && (holds_key key i.outstanding && not (holds_key key i.paste_held))
    then target
    else if i.paste_running
    then dropped
    else if chrome_unreachable i
    then target
    else if i.popover_open || i.modal_open
    then chrome
    else target

unfoldable pub resolve_paste_chord : KeyAction → Bool → KeyAction
resolve_paste_chord paste paste_running = if paste_running then release else paste
resolve_paste_chord action paste_running = action

-- The first test of `route_pointer`.
abbrev pub is_owed : Outstanding → PointerKind → Bool
is_owed o (button mask false) = holds_button mask o
is_owed o _ = false

abbrev pub is_press : PointerKind → Bool
is_press (button mask true) = true
is_press _ = false

unfoldable pub route_pointer : RouteInputs → PointerKind → Sink
unfolding chrome_unreachable
route_pointer i kind =
    if is_owed i.outstanding kind
    then target
    else if not (chrome_unreachable i)
        && (i.pointer_over_chrome || (i.popover_open || i.modal_open))
    then chrome
    else if i.paste_running && is_press kind
    then dropped
    else target

abbrev pub mapped : Bool → Option HidKey → KeyAction
mapped pressed none = unmapped
mapped pressed (some key) = forward key pressed

abbrev pub is_pause : KeyCode → Bool
is_pause pause = true
is_pause _ = false

-- A physical key with no code is `none`.
unfoldable pub map_key : Option KeyCode → Bool → Bool → Bool → KeyAction
map_key physical_key pressed repeat shift = if repeat then swallowed else elim physical_key [
  | none ↦ unmapped
  | some code ↦
      if is_pause code
      then (if pressed then (if shift then paste else release) else swallowed)
      else mapped pressed (hid_key code)
]

-- winit's `MouseButton`.
pub data MouseButton : Type 0 where
  left right middle back forward_button : MouseButton
  other : ℕ → MouseButton

unfoldable pub map_button : MouseButton → Option ℕ
map_button left = some 1
map_button right = some 2
map_button middle = some 4
map_button back = some 8
map_button forward_button = some 16
map_button (other n) = none
