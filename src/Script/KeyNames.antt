-- ===== src/Script/KeyNames.antt =====
-- src/script/keynames.rs: the names of keys and modifiers in a chord.
use nano_kvm_usb_rs.Prelude.{ℕ, List, [], ◌∷◌, Bool, true, false, Option, none, some, if◌then◌else◌}
use nano_kvm_usb_rs.Prelude.Text.{chars, eq_ignore_ascii_case}
use nano_kvm_usb_rs.Proto.Report.{HidKey, modifier, usage}
use nano_kvm_usb_rs.Proto.Keymap.{
  KeyCode, hid_key, alt_left, alt_right, arrow_down, arrow_left, arrow_right, arrow_up, backquote,
  backslash, backspace, bracket_left, bracket_right, caps_lock, comma, context_menu, control_left,
  control_right, delete, digit0, digit1, digit2, digit3, digit4, digit5, digit6, digit7, digit8,
  digit9, end, enter, equal, escape, f1, f10, f11, f12, f13, f14, f15, f16, f17, f18, f19, f2, f20,
  f21, f22, f23, f24, f3, f4, f5, f6, f7, f8, f9, home, insert, key_a, key_b, key_c, key_d, key_e,
  key_f, key_g, key_h, key_i, key_j, key_k, key_l, key_m, key_n, key_o, key_p, key_q, key_r, key_s,
  key_t, key_u, key_v, key_w, key_x, key_y, key_z, minus, num_lock, numpad0, numpad1, numpad2,
  numpad3, numpad4, numpad5, numpad6, numpad7, numpad8, numpad9, numpad_add, numpad_decimal,
  numpad_divide, numpad_enter, numpad_multiply, numpad_subtract, page_down, page_up, pause, period,
  print_screen, quote, scroll_lock, semicolon, shift_left, shift_right, slash, space, super_left,
  super_right, tab,
}

pub record KeyName : Type 0 where
  pub name : List ℕ
  pub key : KeyCode
  pub shifted : Bool

abbrev named : List ℕ → KeyCode → Bool → KeyName
named name key shifted = record { name = name; key = key; shifted = shifted }

unfoldable pub keys : List KeyName
unfolding chars
keys =
    named (chars "a") key_a false
    ∷ named (chars "b") key_b false
    ∷ named (chars "c") key_c false
    ∷ named (chars "d") key_d false
    ∷ named (chars "e") key_e false
    ∷ named (chars "f") key_f false
    ∷ named (chars "g") key_g false
    ∷ named (chars "h") key_h false
    ∷ named (chars "i") key_i false
    ∷ named (chars "j") key_j false
    ∷ named (chars "k") key_k false
    ∷ named (chars "l") key_l false
    ∷ named (chars "m") key_m false
    ∷ named (chars "n") key_n false
    ∷ named (chars "o") key_o false
    ∷ named (chars "p") key_p false
    ∷ named (chars "q") key_q false
    ∷ named (chars "r") key_r false
    ∷ named (chars "s") key_s false
    ∷ named (chars "t") key_t false
    ∷ named (chars "u") key_u false
    ∷ named (chars "v") key_v false
    ∷ named (chars "w") key_w false
    ∷ named (chars "x") key_x false
    ∷ named (chars "y") key_y false
    ∷ named (chars "z") key_z false
    ∷ named (chars "0") digit0 false
    ∷ named (chars "1") digit1 false
    ∷ named (chars "2") digit2 false
    ∷ named (chars "3") digit3 false
    ∷ named (chars "4") digit4 false
    ∷ named (chars "5") digit5 false
    ∷ named (chars "6") digit6 false
    ∷ named (chars "7") digit7 false
    ∷ named (chars "8") digit8 false
    ∷ named (chars "9") digit9 false
    ∷ named (chars "f1") f1 false
    ∷ named (chars "f2") f2 false
    ∷ named (chars "f3") f3 false
    ∷ named (chars "f4") f4 false
    ∷ named (chars "f5") f5 false
    ∷ named (chars "f6") f6 false
    ∷ named (chars "f7") f7 false
    ∷ named (chars "f8") f8 false
    ∷ named (chars "f9") f9 false
    ∷ named (chars "f10") f10 false
    ∷ named (chars "f11") f11 false
    ∷ named (chars "f12") f12 false
    ∷ named (chars "f13") f13 false
    ∷ named (chars "f14") f14 false
    ∷ named (chars "f15") f15 false
    ∷ named (chars "f16") f16 false
    ∷ named (chars "f17") f17 false
    ∷ named (chars "f18") f18 false
    ∷ named (chars "f19") f19 false
    ∷ named (chars "f20") f20 false
    ∷ named (chars "f21") f21 false
    ∷ named (chars "f22") f22 false
    ∷ named (chars "f23") f23 false
    ∷ named (chars "f24") f24 false
    ∷ named (chars "enter") enter false
    ∷ named (chars "esc") escape false
    ∷ named (chars "tab") tab false
    ∷ named (chars "space") space false
    ∷ named (chars "backspace") backspace false
    ∷ named (chars "delete") delete false
    ∷ named (chars "insert") insert false
    ∷ named (chars "home") home false
    ∷ named (chars "end") end false
    ∷ named (chars "pgup") page_up false
    ∷ named (chars "pgdn") page_down false
    ∷ named (chars "up") arrow_up false
    ∷ named (chars "down") arrow_down false
    ∷ named (chars "left") arrow_left false
    ∷ named (chars "right") arrow_right false
    ∷ named (chars "capslock") caps_lock false
    ∷ named (chars "numlock") num_lock false
    ∷ named (chars "scrolllock") scroll_lock false
    ∷ named (chars "printscreen") print_screen false
    ∷ named (chars "pause") pause false
    ∷ named (chars "menu") context_menu false
    ∷ named (chars "minus") minus false
    ∷ named (chars "equal") equal false
    ∷ named (chars "bracketleft") bracket_left false
    ∷ named (chars "bracketright") bracket_right false
    ∷ named (chars "backslash") backslash false
    ∷ named (chars "semicolon") semicolon false
    ∷ named (chars "quote") quote false
    ∷ named (chars "backquote") backquote false
    ∷ named (chars "comma") comma false
    ∷ named (chars "period") period false
    ∷ named (chars "slash") slash false
    ∷ named (chars "plus") equal true
    ∷ named (chars "kp0") numpad0 false
    ∷ named (chars "kp1") numpad1 false
    ∷ named (chars "kp2") numpad2 false
    ∷ named (chars "kp3") numpad3 false
    ∷ named (chars "kp4") numpad4 false
    ∷ named (chars "kp5") numpad5 false
    ∷ named (chars "kp6") numpad6 false
    ∷ named (chars "kp7") numpad7 false
    ∷ named (chars "kp8") numpad8 false
    ∷ named (chars "kp9") numpad9 false
    ∷ named (chars "kpenter") numpad_enter false
    ∷ named (chars "kpplus") numpad_add false
    ∷ named (chars "kpminus") numpad_subtract false
    ∷ named (chars "kpmultiply") numpad_multiply false
    ∷ named (chars "kpdivide") numpad_divide false
    ∷ named (chars "kpdecimal") numpad_decimal false
    ∷ []

unfoldable pub aliases : List KeyName
unfolding chars
aliases =
    named (chars "return") enter false
    ∷ named (chars "escape") escape false
    ∷ named (chars "del") delete false
    ∷ named (chars "ins") insert false
    ∷ named (chars "pageup") page_up false
    ∷ named (chars "pagedown") page_down false
    ∷ named (chars "prtsc") print_screen false
    ∷ named (chars "sysrq") print_screen false
    ∷ named (chars "contextmenu") context_menu false
    ∷ named (chars "grave") backquote false
    ∷ named (chars "-") minus false
    ∷ named (chars "=") equal false
    ∷ named (chars "[") bracket_left false
    ∷ named (chars "]") bracket_right false
    ∷ named (chars "\\") backslash false
    ∷ named (chars ";") semicolon false
    ∷ named (chars "'") quote false
    ∷ named (chars "`") backquote false
    ∷ named (chars ",") comma false
    ∷ named (chars ".") period false
    ∷ named (chars "/") slash false
    ∷ []

unfoldable pub modifiers : List KeyName
unfolding chars
modifiers =
    named (chars "ctrl") control_left false
    ∷ named (chars "control") control_left false
    ∷ named (chars "alt") alt_left false
    ∷ named (chars "shift") shift_left false
    ∷ named (chars "super") super_left false
    ∷ named (chars "win") super_left false
    ∷ named (chars "meta") super_left false
    ∷ named (chars "cmd") super_left false
    ∷ named (chars "rctrl") control_right false
    ∷ named (chars "ralt") alt_right false
    ∷ named (chars "altgr") alt_right false
    ∷ named (chars "rshift") shift_right false
    ∷ named (chars "rsuper") super_right false
    ∷ []

-- `iter().find` by the name, without regard to case.
unfoldable pub find_name : List ℕ → List KeyName → Option KeyName
unfolding eq_ignore_ascii_case
find_name name [] = none
find_name name (k ∷ ks) =
    let rest = find_name name ks in if eq_ignore_ascii_case k.name name then some k else rest

unfoldable pub key_by_name_with_shift : List ℕ → Option (KeyCode × Bool)
unfolding find_name keys aliases
key_by_name_with_shift name = elim (find_name name keys) [
  | some k ↦ some (k.key, k.shifted)
  | none ↦ elim (find_name name aliases) [ some k ↦ some (k.key, false) | none ↦ none ]
]

abbrev pub modifier_bit : Option HidKey → Option ℕ
modifier_bit (some (modifier bit)) = some bit
modifier_bit (some (usage u)) = none
modifier_bit none = none

unfoldable pub modifier_by_name : List ℕ → Option ℕ
unfolding find_name modifiers hid_key
modifier_by_name name = elim (find_name name modifiers) [
  | some k ↦ modifier_bit (hid_key k.key)
  | none ↦ none
]
