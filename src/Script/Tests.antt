-- ===== src/Script/Tests.antt =====
-- Runs of the script compiler and the witnesses of its theorems.
use nano_kvm_usb_rs.Prelude.{ℕ, List, true, some, [], ◌∷◌, ◌++◌, none, ok, err, ◌≡◌, refl}
use nano_kvm_usb_rs.Prelude.Text.{chars}
use nano_kvm_usb_rs.Script.Steps.{Step, wait, tap, key_label, type_label}
use nano_kvm_usb_rs.Script.Layout.{us, key_for_char}
use nano_kvm_usb_rs.Script.Compile.{
  off, compensate, compile_type, compile_key, unreachable, nothing_to_type, find_unreachable,
  type_chars, push_char, usage_of, unknown_step, layout_too_late,
}
use nano_kvm_usb_rs.Script.Target.{typed, reports, no_keys}
use nano_kvm_usb_rs.Script.Compile.Typing.{compile_type-types}
use nano_kvm_usb_rs.Script.Compile.Refusal.{Explains, compile_type-Explains}
use nano_kvm_usb_rs.Script.Macro.Taps.{IsTapped, compile_macro-IsTapped}
use nano_kvm_usb_rs.Script.Macro.{compile_macro, macro_lines}

type_unreachable : compile_type (chars "aébé") us off ≡ err (unreachable us ((0xe9, 2) ∷ []))
unfolding chars compile_type find_unreachable key_for_char
type_unreachable = refl

type_a : compile_type (chars "A") us off ≡ ok (tap 4 2 (type_label b'A') [])
unfolding chars compile_type find_unreachable key_for_char type_chars push_char usage_of tap
type_a = refl

key_chord :
    compile_key (chars "ctrl+Alt+t" ∷ []) us ≡ ok (tap 0x17 5 (key_label (chars "ctrl+Alt+t")) [])
unfolding chars compile_key tap
key_chord = refl

abbrev a_macro : List ℕ
a_macro = chars "layout US\n# note\n\nkey plus\n  type a\nwait 500\r\n"

bad_macro_runs :
    compile_macro (chars "frob x\nlayout us\ntype ") none off
    ≡ err (
        macro_lines
          ((1, unknown_step (chars "frob")) ∷ (2, layout_too_late) ∷ (3, nothing_to_type) ∷ []))
unfolding chars compile_macro
bad_macro_runs = refl

abbrev mixed : List ℕ
mixed = b'b' ∷ b'A' ∷ []

abbrev mixed_script : List Step
mixed_script = tap 4 0 (type_label b'A') (tap 5 2 (type_label b'b') [])

mixed_compiles : compile_type mixed us compensate ≡ ok mixed_script
unfolding compile_type find_unreachable key_for_char type_chars push_char usage_of tap
mixed_compiles = refl

compile_type-types_example : typed true no_keys (reports mixed_script) ≡ some b'b' ∷ some b'A' ∷ []
compile_type-types_example = compile_type-types true compensate mixed tt mixed_compiles

abbrev accented : List ℕ
accented = b'a' ∷ 0xe9 ∷ 0xe8 ∷ 0xe9 ∷ []

compile_type-Explains_example :
    Explains accented (err (unreachable us ((0xe9, 2) ∷ (0xe8, 3) ∷ [])))
unfolding compile_type find_unreachable key_for_char
compile_type-Explains_example = compile_type-Explains accented off

abbrev a_macro_script : List Step
a_macro_script =
    tap 0x04 0 (type_label b'a') (tap 0x2e 2 (key_label (b'p' ∷ b'l' ∷ b'u' ∷ b's' ∷ [])) [])
    ++ (wait 500 ∷ [])

a_macro_compiles : compile_macro a_macro none off ≡ ok a_macro_script
unfolding chars compile_macro find_unreachable type_chars push_char tap
a_macro_compiles = refl

compile_macro-IsTapped_example : IsTapped a_macro_script
compile_macro-IsTapped_example = compile_macro-IsTapped a_macro none off a_macro_compiles
