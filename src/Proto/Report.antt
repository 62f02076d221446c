-- ===== src/Proto/Report.antt =====
-- src/proto/mod.rs and src/proto/report.rs: command bytes, HID payloads, absolute coordinates.
-- A `u8` and a `u16` are natural numbers; an `i8` is an integer.
pub mod Coord
use nano_kvm_usb_rs.Prelude.{
  ℕ, ◌+◌, ◌-◌, ◌*◌, ◌/◌, ◌%◌, min, List, [], ◌∷◌, ==→eq, ◌==◌, if◌then◌else◌,
}
use nano_kvm_usb_rs.Prelude.Int.{ℤ, pos, as_u8}

-- `cmd`: the command bytes that the input path sends.
abbrev pub get_info : ℕ
get_info = 0x01

abbrev pub send_kb_general_data : ℕ
send_kb_general_data = 0x02

abbrev pub send_ms_abs_data : ℕ
send_ms_abs_data = 0x04

abbrev pub send_ms_rel_data : ℕ
send_ms_rel_data = 0x05

abbrev pub button_left : ℕ
button_left = 1

abbrev pub abs_max : ℕ
abs_max = 4095

abbrev pub abs_divisor : ℕ
abs_divisor = 4096

-- `u64::div_ceil`.
abbrev pub div_ceil : ℕ → ℕ → ℕ
div_ceil a b = (a + b - 1) / b

-- The products stay below 2 ^ 44, so the `u64` arithmetic cannot wrap.
unfoldable pub abs_coord : ℕ → ℕ → ℕ
abs_coord px extent =
    if extent == 0 then 0 else min (div_ceil (min px (extent - 1) * abs_divisor) extent) abs_max

-- `keys` is `[u8; 6]`, one field a slot.
pub record KeyboardReport : Type 0 where
  pub modifiers : ℕ
  pub keys : List ℕ

-- `KeyboardReport::RELEASE_ALL`.
abbrev pub keyboard_release_all : KeyboardReport
keyboard_release_all = record { modifiers = 0; keys = 0 ∷ 0 ∷ 0 ∷ 0 ∷ 0 ∷ 0 ∷ [] }

-- `KeyboardReport::payload`.
unfoldable pub keyboard_payload : KeyboardReport → List ℕ
keyboard_payload r = r.modifiers ∷ 0 ∷ r.keys

pub record MouseRelReport : Type 0 where
  pub buttons : ℕ
  pub dx : ℤ
  pub dy : ℤ
  pub wheel : ℤ

-- `MouseRelReport::payload`.
unfoldable pub rel_payload : MouseRelReport → List ℕ
rel_payload r = 0x01 ∷ r.buttons ∷ as_u8 r.dx ∷ as_u8 r.dy ∷ as_u8 r.wheel ∷ []

pub record MouseAbsReport : Type 0 where
  pub buttons : ℕ
  pub x : ℕ
  pub y : ℕ
  pub wheel : ℤ

-- `MouseAbsReport::payload`: `to_le_bytes` gives the low byte first.
unfoldable pub abs_payload : MouseAbsReport → List ℕ
abs_payload r =
    let x = min r.x abs_max in
    let y = min r.y abs_max in
    0x02
    ∷ r.buttons
    ∷ (x % 256)
    ∷ (x / 256 % 256)
    ∷ (y % 256)
    ∷ (y / 256 % 256)
    ∷ as_u8 r.wheel
    ∷ []

-- `MOUSE_RELEASE_ALL`.
abbrev pub mouse_release_all : MouseRelReport
mouse_release_all = record { buttons = 0; dx = pos 0; dy = pos 0; wheel = pos 0 }

pub data HidKey : Type 0 where
  modifier : ℕ → HidKey
  usage : ℕ → HidKey
