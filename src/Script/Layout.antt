-- ===== src/Script/Layout.antt =====
-- src/script/layout.rs: the key of each character on the target's keyboard.
pub mod Board
use nano_kvm_usb_rs.Prelude.{
  ℕ, zero, suc, ◌+◌, ◌-◌, List, [], ◌∷◌, Bool, true, false, ◌||◌, Option, none, some, ◌==◌,
  if◌then◌else◌, get_or, Result, ok, err,
}
use nano_kvm_usb_rs.Prelude.Text.{
  chars, is_ascii_lowercase, is_ascii_uppercase, is_ascii_digit, eq_ignore_ascii_case,
}
use nano_kvm_usb_rs.Proto.Keymap.{
  KeyCode, key_a, key_b, key_c, key_d, key_e, key_f, key_g, key_h, key_i, key_j, key_k, key_l,
  key_m, key_n, key_o, key_p, key_q, key_r, key_s, key_t, key_u, key_v, key_w, key_x, key_y, key_z,
  digit0, digit1, digit2, digit3, digit4, digit5, digit6, digit7, digit8, digit9, enter, tab, space,
  minus, equal, bracket_left, bracket_right, backslash, semicolon, quote, backquote, comma, period,
  slash,
}

pub data Layout : Type 0 where
  us : Layout

pub record LayoutError : Type 0 where
  pub name : List ℕ

-- `Layout::from_str`.
unfoldable pub from_str : List ℕ → Result Layout LayoutError
unfolding eq_ignore_ascii_case chars
from_str s =
    if eq_ignore_ascii_case s (chars "us") || eq_ignore_ascii_case s (chars "us-qwerty")
    then ok us
    else err (record { name = s })

abbrev letters : List KeyCode
letters =
    key_a ∷ key_b ∷ key_c ∷ key_d ∷ key_e ∷ key_f ∷ key_g ∷ key_h ∷ key_i ∷ key_j ∷ key_k ∷ key_l
    ∷ key_m ∷ key_n ∷ key_o ∷ key_p ∷ key_q ∷ key_r ∷ key_s ∷ key_t ∷ key_u ∷ key_v ∷ key_w ∷ key_x
    ∷ key_y ∷ key_z ∷ []

abbrev digits : List KeyCode
digits =
    digit0 ∷ digit1 ∷ digit2 ∷ digit3 ∷ digit4 ∷ digit5 ∷ digit6 ∷ digit7 ∷ digit8 ∷ digit9 ∷ []

-- What each digit key produces with shift, indexed by the digit.
unfoldable pub shifted_digits : List ℕ
unfolding chars
shifted_digits = chars ")!@#$%^&*("

-- The plain and the shifted character of a key.
pub record Punctuation : Type 0 where
  pub plain : ℕ
  pub shifted : ℕ
  pub key : KeyCode

abbrev punctuation : List Punctuation
punctuation =
    record { plain = 45; shifted = 95; key = minus }
    ∷ record { plain = 61; shifted = 43; key = equal }
    ∷ record { plain = 91; shifted = 123; key = bracket_left }
    ∷ record { plain = 93; shifted = 125; key = bracket_right }
    ∷ record { plain = 92; shifted = 124; key = backslash }
    ∷ record { plain = 59; shifted = 58; key = semicolon }
    ∷ record { plain = 39; shifted = 34; key = quote }
    ∷ record { plain = 96; shifted = 126; key = backquote }
    ∷ record { plain = 44; shifted = 60; key = comma }
    ∷ record { plain = 46; shifted = 62; key = period }
    ∷ record { plain = 47; shifted = 63; key = slash }
    ∷ []

-- `iter().position(|&s| s == c)`.
unfoldable pub position : ℕ → List ℕ → Option ℕ
position c [] = none
position c (d ∷ ds) =
    let rest = position c ds in
    if d == c then some 0 else elim rest [ none ↦ none | some i ↦ some (suc i) ]

-- The `find_map` over the punctuation keys.
unfoldable pub find_punctuation : ℕ → List Punctuation → Option (KeyCode × Bool)
find_punctuation c [] = none
find_punctuation c (p ∷ ps) =
    let rest = find_punctuation c ps in
    if c == p.plain
    then some (p.key, false)
    else if c == p.shifted
    then some (p.key, true)
    else rest

-- The three keys that the `match` names.
unfoldable pub named_key : ℕ → Option (KeyCode × Bool)
unfolding find_punctuation
named_key c =
    if c == b' '
    then some (space, false)
    else if c == 10
    then some (enter, false)
    else if c == 9
    then some (tab, false)
    else find_punctuation c punctuation

-- Every index is in bounds by its test, so the default of `get_or` is never read.
unfoldable pub us_key_for_char : ℕ → Option (KeyCode × Bool)
unfolding position shifted_digits named_key
us_key_for_char c =
    if is_ascii_lowercase c
    then some (get_or letters (c - b'a') space, false)
    else if is_ascii_uppercase c
    then some (get_or letters (c - b'A') space, true)
    else if is_ascii_digit c
    then some (get_or digits (c - b'0') space, false)
    else elim (position c shifted_digits) [
      | some d ↦ some (get_or digits d space, true)
      | none ↦ named_key c
    ]

unfoldable pub key_for_char : Layout → ℕ → Option (KeyCode × Bool)
unfolding us_key_for_char
key_for_char us c = us_key_for_char c
