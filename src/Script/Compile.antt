-- ===== src/Script/Compile.antt =====
-- src/script/compile.rs: chords and text compiled to presses and releases. `MacroError` of `Macro` has the
-- variants of `CompileError` that hold other errors, and that of a macro with no step.
pub mod Strokes
pub mod Typing
pub mod Refusal
use nano_kvm_usb_rs.Prelude.{
  ℕ, suc, ◌+◌, List, [], ◌∷◌, ◌++◌, Bool, true, false, not, ◌||◌, Option, none, some, ◌==◌,
  if◌then◌else◌, Result, ok, err,
}
use nano_kvm_usb_rs.Prelude.Text.{chars, is_ascii_alphabetic}
use nano_kvm_usb_rs.Proto.Report.{HidKey, modifier, usage}
use nano_kvm_usb_rs.Proto.Keymap.{KeyCode, hid_key, left_shift, space}
use nano_kvm_usb_rs.Script.Steps.{Step, Label, key_label, type_label, tap}
use nano_kvm_usb_rs.Script.Layout.{Layout, LayoutError, key_for_char}
use nano_kvm_usb_rs.Script.Chord.{Chord, ChordError, parse_chord_with}

pub data CapsLock : Type 0 where
  off ignore compensate : CapsLock

unfoldable pub shift_for : CapsLock → ℕ → Bool → Bool
shift_for off c shift = shift
shift_for ignore c shift = shift
shift_for compensate c shift = if is_ascii_alphabetic c then not shift else shift

-- The characters with the places, from 1, of their first occurrences.
abbrev pub Places : Type 0
Places = List (ℕ × ℕ)

pub data CompileError : Type 0 where
  chord : ChordError → CompileError
  layout_error : LayoutError → CompileError
  unforwarded : KeyCode → CompileError
  nothing_to_type : CompileError
  unreachable : Layout → Places → CompileError
  unknown_step : List ℕ → CompileError
  missing_argument : List ℕ → List ℕ → CompileError
  bad_wait : List ℕ → CompileError
  wait_too_long : ℕ → CompileError
  chords : List ChordError → CompileError
  layout_conflict : List ℕ → Layout → CompileError
  layout_too_late : CompileError

unfoldable pub usage_of : KeyCode → Result ℕ CompileError
unfolding hid_key
usage_of key = elim (hid_key key) [
  | some (usage u) ↦ ok u
  | some (modifier bit) ↦ err (unforwarded key)
  | none ↦ err (unforwarded key)
]

unfoldable pub push_chord : List Step → Chord → Label → Result (List Step) CompileError
unfolding usage_of tap
push_chord script c label = elim c.key [
  | none ↦ ok (tap 0 c.modifiers label script)
  | some key ↦ elim (usage_of key) [ ok u ↦ ok (tap u c.modifiers label script) | err e ↦ err e ]
]

-- The loop of `compile_key`: the script and the chords that are invalid.
unfoldable pub push_chords :
    Layout
    → List (List ℕ)
    → List Step
    → List ChordError
    → Result (List Step × List ChordError) CompileError
unfolding parse_chord_with push_chord
push_chords layout [] script invalid = ok (script, invalid)
push_chords layout (text ∷ texts) script invalid = elim (parse_chord_with layout text) [
  | err e ↦ push_chords layout texts script (invalid ++ (e ∷ []))
  | ok c ↦ elim (push_chord script c (key_label text)) [
    | ok script' ↦ push_chords layout texts script' invalid
    | err e ↦ err e
  ]
]

abbrev key_outcome : List Step × List ChordError → Result (List Step) CompileError
key_outcome (script, e ∷ invalid) = err (chords (e ∷ invalid))
key_outcome ([], []) = err (missing_argument (chars "key") (chars "a chord"))
key_outcome (step ∷ script, []) = ok (step ∷ script)

unfoldable pub compile_key : List (List ℕ) → Layout → Result (List Step) CompileError
unfolding push_chords chars
compile_key texts layout = elim (push_chords layout texts [] []) [
  | err e ↦ err e
  | ok outcome ↦ key_outcome outcome
]

-- `unreachable.iter().any(|&(seen, _)| seen == c)`.
unfoldable pub seen : ℕ → Places → Bool
seen c [] = false
seen c ((d, at_place) ∷ places) = d == c || seen c places

abbrev pub has_key : Option (KeyCode × Bool) → Bool
has_key none = false
has_key (some found) = true

-- The first loop of `compile_type`, from the index of its next character.
unfoldable pub find_unreachable : Layout → ℕ → Places → List ℕ → Places
unfolding seen
find_unreachable layout i places [] = places
find_unreachable layout i places (c ∷ text) =
    find_unreachable layout (suc i)
      (if has_key (key_for_char layout c) || seen c places
        then places
        else places ++ ((c, i + 1) ∷ []))
      text

-- The first loop has found a key for each character, so the default of `expect` is never read.
abbrev pub expect : Option (KeyCode × Bool) → KeyCode × Bool
expect none = (space, false)
expect (some found) = found

-- One character of the second loop of `compile_type`.
unfoldable pub push_char :
    CapsLock → List Step → ℕ → KeyCode × Bool → Result (List Step) CompileError
unfolding shift_for tap
push_char caps script c (key, shift) = elim (usage_of key) [
  | err e ↦ err e
  | ok u ↦ ok (tap u (if shift_for caps c shift then left_shift else 0) (type_label c) script)
]

unfoldable pub type_chars : Layout → CapsLock → List Step → List ℕ → Result (List Step) CompileError
type_chars layout caps script [] = ok script
type_chars layout caps script (c ∷ text) =
    elim (push_char caps script c (expect (key_for_char layout c))) [
      | err e ↦ err e
      | ok script' ↦ type_chars layout caps script' text
    ]

abbrev pub refuse_unreachable :
    Layout → Places → Result (List Step) CompileError → Result (List Step) CompileError
refuse_unreachable layout [] typed = typed
refuse_unreachable layout (p ∷ places) typed = err (unreachable layout (p ∷ places))

unfoldable pub compile_type : List ℕ → Layout → CapsLock → Result (List Step) CompileError
compile_type [] layout caps = err nothing_to_type
compile_type (c ∷ text) layout caps =
    refuse_unreachable layout (find_unreachable layout 0 [] (c ∷ text))
      (type_chars layout caps [] (c ∷ text))
