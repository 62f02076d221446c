-- ===== src/Script/Chord.antt =====
-- src/script/chord.rs: a chord read into modifier bits and a key.
use nano_kvm_usb_rs.Prelude.{
  ℕ, List, [], ◌∷◌, Bool, true, false, Option, none, some, if◌then◌else◌, bit_or, Result, ok, err,
}
use nano_kvm_usb_rs.Prelude.Text.{split}
use nano_kvm_usb_rs.Proto.Keymap.{KeyCode, left_shift}
use nano_kvm_usb_rs.Script.Layout.{Layout, key_for_char}
use nano_kvm_usb_rs.Script.KeyNames.{key_by_name_with_shift, modifier_by_name}

pub record Chord : Type 0 where
  pub modifiers : ℕ
  pub key : Option KeyCode

pub data ChordError : Type 0 where
  empty : ChordError
  empty_token : List ℕ → ChordError
  unknown_key : List ℕ → List ℕ → ChordError
  not_a_modifier : List ℕ → List ℕ → ChordError

-- `tokens.iter().any(|t| t.is_empty())`.
unfoldable pub any_empty : List (List ℕ) → Bool
any_empty [] = false
any_empty ([] ∷ ts) = true
any_empty ((c ∷ t) ∷ ts) = any_empty ts

-- A token of one character goes through the layout first.
unfoldable pub resolve_key : Layout → List ℕ → Option (KeyCode × Bool)
unfolding key_for_char key_by_name_with_shift
resolve_key layout [] = key_by_name_with_shift []
resolve_key layout (c ∷ []) = elim (key_for_char layout c) [
  | some found ↦ some found
  | none ↦ key_by_name_with_shift (c ∷ [])
]
resolve_key layout (c ∷ d ∷ token) = key_by_name_with_shift (c ∷ d ∷ token)

-- The last token: a modifier for a chord of modifiers, or a key.
unfoldable pub parse_last : Layout → List ℕ → ℕ → List ℕ → Result Chord ChordError
unfolding resolve_key modifier_by_name
parse_last layout chord modifiers token = elim (modifier_by_name token) [
  | some bit ↦ ok (record { modifiers = bit_or modifiers bit; key = none })
  | none ↦ elim (resolve_key layout token) [
    | none ↦ err (unknown_key token chord)
    | some (key, shift) ↦ ok (record {
      modifiers = if shift then bit_or modifiers left_shift else modifiers;
      key = some key;
    })
  ]
]

-- The loop over the tokens before the last, and the last one.
unfoldable pub parse_tokens : Layout → List ℕ → ℕ → List (List ℕ) → Result Chord ChordError
unfolding parse_last modifier_by_name
parse_tokens layout chord modifiers [] = err empty
parse_tokens layout chord modifiers (token ∷ []) = parse_last layout chord modifiers token
parse_tokens layout chord modifiers (token ∷ t ∷ ts) = elim (modifier_by_name token) [
  | none ↦ err (not_a_modifier token chord)
  | some bit ↦ parse_tokens layout chord (bit_or modifiers bit) (t ∷ ts)
]

-- `split` never yields an empty list.
unfoldable pub parse_chord_with : Layout → List ℕ → Result Chord ChordError
unfolding split any_empty parse_tokens
parse_chord_with layout [] = err empty
parse_chord_with layout (c ∷ s) =
    let tokens = split b'+' (c ∷ s) in
    if any_empty tokens then err (empty_token (c ∷ s)) else parse_tokens layout (c ∷ s) 0 tokens
