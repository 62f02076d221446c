-- ===== src/Proto/Keymap.antt =====
-- src/proto/keymap.rs: physical keys and the form in which a keyboard report carries them.
use nano_kvm_usb_rs.Prelude.{ℕ, Option, none, some}
use nano_kvm_usb_rs.Proto.Report.{HidKey, modifier, usage}

-- The variants of winit's `KeyCode` that the source names; `other` stands for those it does not.
-- `fn_key` and `open_key` are `Fn` and `Open`.
pub data KeyCode : Type 0 where
  control_left shift_left alt_left super_left control_right shift_right alt_right : KeyCode
  super_right key_a key_b key_c key_d key_e key_f key_g key_h key_i key_j key_k key_l key_m :
      KeyCode
  key_n key_o key_p key_q key_r key_s key_t key_u key_v key_w key_x key_y key_z digit1 : KeyCode
  digit2 digit3 digit4 digit5 digit6 digit7 digit8 digit9 digit0 enter escape backspace tab :
      KeyCode
  space minus equal bracket_left bracket_right backslash semicolon quote backquote comma : KeyCode
  period slash caps_lock f1 f2 f3 f4 f5 f6 f7 f8 f9 f10 f11 f12 print_screen scroll_lock : KeyCode
  pause insert home page_up delete end page_down arrow_right arrow_left arrow_down arrow_up :
      KeyCode
  num_lock numpad_divide numpad_multiply numpad_subtract numpad_add numpad_enter numpad1 : KeyCode
  numpad2 numpad3 numpad4 numpad5 numpad6 numpad7 numpad8 numpad9 numpad0 numpad_decimal : KeyCode
  intl_backslash context_menu power numpad_equal f13 f14 f15 f16 f17 f18 f19 f20 f21 f22 f23 :
      KeyCode
  f24 help props select again undo cut copy paste find audio_volume_mute audio_volume_up : KeyCode
  audio_volume_down numpad_comma intl_ro kana_mode intl_yen convert non_convert lang1 lang2 :
      KeyCode
  lang3 lang4 lang5 numpad_paren_left numpad_paren_right numpad_backspace : KeyCode
  numpad_memory_store numpad_memory_recall numpad_memory_clear numpad_memory_add : KeyCode
  numpad_memory_subtract numpad_clear numpad_clear_entry media_play_pause media_stop : KeyCode
  media_track_previous media_track_next eject media_select launch_mail launch_app1 : KeyCode
  launch_app2 browser_search browser_home browser_back browser_forward browser_stop : KeyCode
  browser_refresh browser_favorites sleep wake_up fn_key fn_lock numpad_star numpad_hash : KeyCode
  meta hyper turbo abort resume suspend open_key hiragana katakana f25 f26 f27 f28 f29 f30 : KeyCode
  f31 f32 f33 f34 f35 : KeyCode
  other : ℕ → KeyCode

-- The modifier bits of src/proto/report.rs.
abbrev pub left_ctrl : ℕ
left_ctrl = 0x01

abbrev pub left_shift : ℕ
left_shift = 0x02

abbrev pub left_alt : ℕ
left_alt = 0x04

abbrev pub left_meta : ℕ
left_meta = 0x08

abbrev pub right_ctrl : ℕ
right_ctrl = 0x10

abbrev pub right_shift : ℕ
right_shift = 0x20

abbrev pub right_alt : ℕ
right_alt = 0x40

abbrev pub right_meta : ℕ
right_meta = 0x80

unfoldable pub hid_key : KeyCode → Option HidKey
hid_key control_left = some (modifier left_ctrl)
hid_key shift_left = some (modifier left_shift)
hid_key alt_left = some (modifier left_alt)
hid_key super_left = some (modifier left_meta)
hid_key control_right = some (modifier right_ctrl)
hid_key shift_right = some (modifier right_shift)
hid_key alt_right = some (modifier right_alt)
hid_key super_right = some (modifier right_meta)
hid_key key_a = some (usage 0x04)
hid_key key_b = some (usage 0x05)
hid_key key_c = some (usage 0x06)
hid_key key_d = some (usage 0x07)
hid_key key_e = some (usage 0x08)
hid_key key_f = some (usage 0x09)
hid_key key_g = some (usage 0x0a)
hid_key key_h = some (usage 0x0b)
hid_key key_i = some (usage 0x0c)
hid_key key_j = some (usage 0x0d)
hid_key key_k = some (usage 0x0e)
hid_key key_l = some (usage 0x0f)
hid_key key_m = some (usage 0x10)
hid_key key_n = some (usage 0x11)
hid_key key_o = some (usage 0x12)
hid_key key_p = some (usage 0x13)
hid_key key_q = some (usage 0x14)
hid_key key_r = some (usage 0x15)
hid_key key_s = some (usage 0x16)
hid_key key_t = some (usage 0x17)
hid_key key_u = some (usage 0x18)
hid_key key_v = some (usage 0x19)
hid_key key_w = some (usage 0x1a)
hid_key key_x = some (usage 0x1b)
hid_key key_y = some (usage 0x1c)
hid_key key_z = some (usage 0x1d)
hid_key digit1 = some (usage 0x1e)
hid_key digit2 = some (usage 0x1f)
hid_key digit3 = some (usage 0x20)
hid_key digit4 = some (usage 0x21)
hid_key digit5 = some (usage 0x22)
hid_key digit6 = some (usage 0x23)
hid_key digit7 = some (usage 0x24)
hid_key digit8 = some (usage 0x25)
hid_key digit9 = some (usage 0x26)
hid_key digit0 = some (usage 0x27)
hid_key enter = some (usage 0x28)
hid_key escape = some (usage 0x29)
hid_key backspace = some (usage 0x2a)
hid_key tab = some (usage 0x2b)
hid_key space = some (usage 0x2c)
hid_key minus = some (usage 0x2d)
hid_key equal = some (usage 0x2e)
hid_key bracket_left = some (usage 0x2f)
hid_key bracket_right = some (usage 0x30)
hid_key backslash = some (usage 0x31)
hid_key semicolon = some (usage 0x33)
hid_key quote = some (usage 0x34)
hid_key backquote = some (usage 0x35)
hid_key comma = some (usage 0x36)
hid_key period = some (usage 0x37)
hid_key slash = some (usage 0x38)
hid_key caps_lock = some (usage 0x39)
hid_key f1 = some (usage 0x3a)
hid_key f2 = some (usage 0x3b)
hid_key f3 = some (usage 0x3c)
hid_key f4 = some (usage 0x3d)
hid_key f5 = some (usage 0x3e)
hid_key f6 = some (usage 0x3f)
hid_key f7 = some (usage 0x40)
hid_key f8 = some (usage 0x41)
hid_key f9 = some (usage 0x42)
hid_key f10 = some (usage 0x43)
hid_key f11 = some (usage 0x44)
hid_key f12 = some (usage 0x45)
hid_key print_screen = some (usage 0x46)
hid_key scroll_lock = some (usage 0x47)
hid_key pause = some (usage 0x48)
hid_key insert = some (usage 0x49)
hid_key home = some (usage 0x4a)
hid_key page_up = some (usage 0x4b)
hid_key delete = some (usage 0x4c)
hid_key end = some (usage 0x4d)
hid_key page_down = some (usage 0x4e)
hid_key arrow_right = some (usage 0x4f)
hid_key arrow_left = some (usage 0x50)
hid_key arrow_down = some (usage 0x51)
hid_key arrow_up = some (usage 0x52)
hid_key num_lock = some (usage 0x53)
hid_key numpad_divide = some (usage 0x54)
hid_key numpad_multiply = some (usage 0x55)
hid_key numpad_subtract = some (usage 0x56)
hid_key numpad_add = some (usage 0x57)
hid_key numpad_enter = some (usage 0x58)
hid_key numpad1 = some (usage 0x59)
hid_key numpad2 = some (usage 0x5a)
hid_key numpad3 = some (usage 0x5b)
hid_key numpad4 = some (usage 0x5c)
hid_key numpad5 = some (usage 0x5d)
hid_key numpad6 = some (usage 0x5e)
hid_key numpad7 = some (usage 0x5f)
hid_key numpad8 = some (usage 0x60)
hid_key numpad9 = some (usage 0x61)
hid_key numpad0 = some (usage 0x62)
hid_key numpad_decimal = some (usage 0x63)
hid_key intl_backslash = some (usage 0x64)
hid_key context_menu = some (usage 0x65)
hid_key power = some (usage 0x66)
hid_key numpad_equal = some (usage 0x67)
hid_key f13 = some (usage 0x68)
hid_key f14 = some (usage 0x69)
hid_key f15 = some (usage 0x6a)
hid_key f16 = some (usage 0x6b)
hid_key f17 = some (usage 0x6c)
hid_key f18 = some (usage 0x6d)
hid_key f19 = some (usage 0x6e)
hid_key f20 = some (usage 0x6f)
hid_key f21 = some (usage 0x70)
hid_key f22 = some (usage 0x71)
hid_key f23 = some (usage 0x72)
hid_key f24 = some (usage 0x73)
hid_key help = some (usage 0x75)
hid_key props = some (usage 0x76)
hid_key select = some (usage 0x77)
hid_key again = some (usage 0x79)
hid_key undo = some (usage 0x7a)
hid_key cut = some (usage 0x7b)
hid_key copy = some (usage 0x7c)
hid_key paste = some (usage 0x7d)
hid_key find = some (usage 0x7e)
hid_key audio_volume_mute = some (usage 0x7f)
hid_key audio_volume_up = some (usage 0x80)
hid_key audio_volume_down = some (usage 0x81)
hid_key numpad_comma = some (usage 0x85)
hid_key intl_ro = some (usage 0x87)
hid_key kana_mode = some (usage 0x88)
hid_key intl_yen = some (usage 0x89)
hid_key convert = some (usage 0x8a)
hid_key non_convert = some (usage 0x8b)
hid_key lang1 = some (usage 0x90)
hid_key lang2 = some (usage 0x91)
hid_key lang3 = some (usage 0x92)
hid_key lang4 = some (usage 0x93)
hid_key lang5 = some (usage 0x94)
hid_key numpad_paren_left = some (usage 0xb6)
hid_key numpad_paren_right = some (usage 0xb7)
hid_key numpad_backspace = some (usage 0xbb)
hid_key numpad_memory_store = some (usage 0xd0)
hid_key numpad_memory_recall = some (usage 0xd1)
hid_key numpad_memory_clear = some (usage 0xd2)
hid_key numpad_memory_add = some (usage 0xd3)
hid_key numpad_memory_subtract = some (usage 0xd4)
hid_key numpad_clear = some (usage 0xd8)
hid_key numpad_clear_entry = some (usage 0xd9)
hid_key media_play_pause = some (usage 0xe8)
hid_key media_stop = some (usage 0xe9)
hid_key media_track_previous = some (usage 0xea)
hid_key media_track_next = some (usage 0xeb)
hid_key eject = some (usage 0xec)
hid_key media_select = some (usage 0xed)
hid_key launch_mail = some (usage 0xee)
hid_key launch_app1 = some (usage 0xef)
hid_key launch_app2 = some (usage 0xf0)
hid_key browser_search = some (usage 0xf0)
hid_key browser_home = some (usage 0xf1)
hid_key browser_back = some (usage 0xf2)
hid_key browser_forward = some (usage 0xf3)
hid_key browser_stop = some (usage 0xf4)
hid_key browser_refresh = some (usage 0xf5)
hid_key browser_favorites = some (usage 0xf6)
hid_key sleep = some (usage 0xf8)
hid_key wake_up = some (usage 0xf9)
hid_key _ = none
