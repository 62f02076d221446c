-- ===== src/Script/Layout/Board.antt =====
-- A US keyboard as its target reads it, by the usages of the HID keyboard page, written with no regard
-- to the tables of src/script/layout.rs.
use nano_kvm_usb_rs.Prelude.{
  ℕ, ◌-◌, List, ◌∷◌, ◌++◌, Bool, true, false, not, Option, none, some, ◌==◌, ltb, if◌then◌else◌,
  get_elem?, ◌≡◌, refl,
}
use nano_kvm_usb_rs.Prelude.Text.{chars, between}

-- The plain characters of the usages from 0x04 on; 0 stands for none.
unfoldable pub plain_row : List ℕ
unfolding chars
plain_row =
    chars "abcdefghijklmnopqrstuvwxyz1234567890"
    ++ (10 ∷ 0 ∷ 0 ∷ 9 ∷ chars " -=[]")
    ++ (b'\\' ∷ 0 ∷ chars ";'`,./")

unfoldable pub shifted_row : List ℕ
unfolding chars
shifted_row =
    chars "ABCDEFGHIJKLMNOPQRSTUVWXYZ!@#$%^&*()"
    ++ (10 ∷ 0 ∷ 0 ∷ 9 ∷ chars " _+{}")
    ++ (b'|' ∷ 0 ∷ b':' ∷ b'"' ∷ chars "~<>?")

-- CapsLock swaps the two rows on the letter keys only.
abbrev pub is_letter_key : ℕ → Bool
is_letter_key usage = between 0x04 0x1d usage

abbrev pub swap : Bool → Bool → Bool
swap lock shift = if lock then not shift else shift

abbrev pub no_zero : Option ℕ → Option ℕ
no_zero none = none
no_zero (some c) = if c == 0 then none else some c

-- The character that a key press types, from its usage.
unfoldable pub typed_char : (lock shift : Bool) → ℕ → Option ℕ
unfolding plain_row shifted_row
typed_char lock shift usage =
    let upper = if is_letter_key usage then swap lock shift else shift in
    if ltb usage 4
    then none
    else no_zero (get_elem? (if upper then shifted_row else plain_row) (usage - 4))

row_example : typed_char false true 0x24 ≡ some b'&'
unfolding typed_char
row_example = refl
