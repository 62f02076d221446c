-- ===== src/Viewer/Chrome/Outstanding.antt =====
-- src/viewer/chrome/route.rs: what the target holds because the viewer forwarded the press.
use nano_kvm_usb_rs.Prelude.{
  ℕ, zero, suc, ◌-◌, ◌/◌, ◌%◌, ◌^◌, List, [], ◌∷◌, ◌++◌, map, Bool, not, ◌&&◌, ◌==◌, if◌then◌else◌,
  bit_and, bit_or, get_or,
}
use nano_kvm_usb_rs.Proto.Report.{HidKey, modifier, usage}

-- `usages` is `[u64; 4]`.
pub record Outstanding : Type 0 where
  pub modifiers : ℕ
  pub usages : List ℕ
  pub buttons : ℕ

-- `Outstanding::default`.
abbrev pub nothing : Outstanding
nothing = record { modifiers = 0; usages = 0 ∷ 0 ∷ 0 ∷ 0 ∷ []; buttons = 0 }

-- `|= bit` or `&= !bit`, where `full` is the word with all bits.
abbrev pub set_bit : ℕ → ℕ → Bool → ℕ → ℕ
set_bit full bit down word = if down then bit_or word bit else bit_and word (full - bit)

unfoldable pub set_word : ℕ → ℕ → Bool → List ℕ → List ℕ
set_word place bit down [] = []
set_word zero bit down (word ∷ words) = set_bit (2 ^ 64 - 1) bit down word ∷ words
set_word (suc place) bit down (word ∷ words) = word ∷ set_word place bit down words

unfoldable pub set_key : HidKey → Bool → Outstanding → Outstanding
unfolding set_word
set_key (modifier bit) down o = record o { modifiers = set_bit 255 bit down o.modifiers }
set_key (usage u) down o = record o { usages = set_word (u / 64) (2 ^ (u % 64)) down o.usages }

unfoldable pub holds_key : HidKey → Outstanding → Bool
holds_key (modifier bit) o = not (bit_and o.modifiers bit == 0)
holds_key (usage u) o = not (bit_and (get_or o.usages (u / 64) 0) (2 ^ (u % 64)) == 0)

unfoldable pub set_button : ℕ → Bool → Outstanding → Outstanding
set_button mask down o = record o { buttons = set_bit 255 mask down o.buttons }

unfoldable pub holds_button : ℕ → Outstanding → Bool
holds_button mask o = not (mask == 0) && not (bit_and o.buttons mask == 0)

-- The usages from `256 - n` on that are held.
unfoldable pub held_usages : ℕ → Outstanding → List HidKey
unfolding holds_key
held_usages zero o = []
held_usages (suc n) o =
    let rest = held_usages n o in
    if holds_key (usage (255 - n)) o then usage (255 - n) ∷ rest else rest

-- The bits of a byte from `8 - n` on that are set.
unfoldable pub bits_set : ℕ → ℕ → List ℕ
bits_set zero byte = []
bits_set (suc n) byte =
    let rest = bits_set n byte in
    if bit_and byte (2 ^ (7 - n)) == 0 then rest else 2 ^ (7 - n) ∷ rest

unfoldable pub held_keys : Outstanding → List HidKey
unfolding held_usages bits_set
held_keys o = held_usages 256 o ++ map modifier (bits_set 8 o.modifiers)

unfoldable pub held_buttons : Outstanding → List ℕ
unfolding bits_set
held_buttons o = bits_set 8 o.buttons

unfoldable pub clear : Outstanding → Outstanding
clear o = nothing
