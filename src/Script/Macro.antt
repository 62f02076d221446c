-- ===== src/Script/Macro.antt =====
-- src/script/compile.rs: macros, one step a line.
pub mod Taps
use nano_kvm_usb_rs.Prelude.{
  ℕ, suc, ◌+◌, List, [], ◌∷◌, ◌++◌, Bool, true, false, not, ◌||◌, Option, none, some, ◌==◌, ltb,
  if◌then◌else◌, Result, ok, err,
}
use nano_kvm_usb_rs.Prelude.Text.{
  chars, eq_ignore_ascii_case, trim, trim_start, split_once, lines, parse_u64,
}
use nano_kvm_usb_rs.Script.Steps.{Step, wait, key_label}
use nano_kvm_usb_rs.Script.Layout.{Layout, LayoutError, us, from_str}
use nano_kvm_usb_rs.Script.Chord.{parse_chord_with}
use nano_kvm_usb_rs.Script.Compile.{
  CapsLock, CompileError, chord, layout_error, missing_argument, unknown_step, bad_wait,
  wait_too_long, layout_conflict, layout_too_late, push_chord, compile_type,
}

-- In milliseconds.
abbrev pub max_wait : ℕ
max_wait = 3600000

-- What `compile_line` changes.
pub record MacroState : Type 0 where
  pub script : List Step
  pub active : Layout
  pub declared : Bool

pub data MacroError : Type 0 where
  empty_macro : MacroError
  macro : ℕ → CompileError → MacroError
  macro_lines : List (ℕ × CompileError) → MacroError

-- The error of a line, if it has one, and the state behind it.
abbrev pub LineResult : Type 0
LineResult = Option CompileError × MacroState

abbrev pub is_empty : List ℕ → Bool
is_empty [] = true
is_empty (c ∷ s) = false

abbrev pub has_steps : List Step → Bool
has_steps [] = false
has_steps (step ∷ steps) = true

-- `name.parse::<Layout>() != Ok(want)`: there is one layout.
abbrev agrees : Layout → Result Layout LayoutError → Bool
agrees us (ok us) = true
agrees us (err e) = false

-- The directive `layout`, behind the test for a name.
unfoldable pub declare_layout : Option Layout → List ℕ → MacroState → LineResult
unfolding from_str
declare_layout caller name s =
    if has_steps s.script || s.declared
    then (some layout_too_late, s)
    else let s' = record s { declared = true } in
      elim caller [
        | some want ↦
            if agrees want (from_str name)
            then (none, s')
            else (some (layout_conflict name want), s')
        | none ↦ elim (from_str name) [
          | ok layout ↦ (none, record s' { active = layout })
          | err e ↦ (some (layout_error e), s')
        ]
      ]

unfoldable pub layout_line : Option Layout → List ℕ → MacroState → LineResult
unfolding declare_layout chars
layout_line caller name s =
    if is_empty name
    then (some (missing_argument (chars "layout") (chars "a layout name")), s)
    else declare_layout caller name s

-- The steps added to a script, or the error.
abbrev pub extend : MacroState → Result (List Step) CompileError → LineResult
extend s (ok script) = (none, record s { script = script })
extend s (err e) = (some e, s)

abbrev pub appended : List Step → Result (List Step) CompileError → Result (List Step) CompileError
appended script (ok steps) = ok (script ++ steps)
appended script (err e) = err e

unfoldable pub key_line : List ℕ → MacroState → LineResult
unfolding parse_chord_with push_chord chars
key_line text s =
    if is_empty text
    then (some (missing_argument (chars "key") (chars "a chord")), s)
    else elim (parse_chord_with s.active text) [
      | err e ↦ (some (chord e), s)
      | ok c ↦ extend s (push_chord s.script c (key_label text))
    ]

unfoldable pub wait_line : List ℕ → MacroState → LineResult
unfolding parse_u64
wait_line value s = elim (parse_u64 value) [
  | none ↦ (some (bad_wait value), s)
  | some ms ↦
      if ltb max_wait ms
      then (some (wait_too_long ms), s)
      else (none, record s { script = s.script ++ (wait ms ∷ []) })
]

-- The step of a line whose word is not `layout`.
unfoldable pub step_line : CapsLock → List ℕ → List ℕ → MacroState → LineResult
unfolding eq_ignore_ascii_case chars key_line wait_line compile_type trim
step_line caps word rest s =
    if eq_ignore_ascii_case word (chars "key")
    then key_line (trim rest) s
    else if eq_ignore_ascii_case word (chars "type")
    then extend s (appended s.script (compile_type rest s.active caps))
    else if eq_ignore_ascii_case word (chars "wait")
    then wait_line (trim rest) s
    else (some (unknown_step word), s)

abbrev pub split_word : List ℕ → Option (List ℕ × List ℕ) → List ℕ × List ℕ
split_word line none = (line, [])
split_word line (some parts) = parts

unfoldable pub compile_line : Option Layout → CapsLock → List ℕ → MacroState → LineResult
unfolding split_once eq_ignore_ascii_case chars layout_line step_line trim
compile_line caller caps line s =
    let (word, rest) = split_word line (split_once b' ' line) in
    if eq_ignore_ascii_case word (chars "layout")
    then layout_line caller (trim rest) s
    else step_line caps word rest (record s { declared = true })

abbrev pub is_skipped : List ℕ → Bool
is_skipped [] = true
is_skipped (c ∷ s) = c == b'#'

abbrev pub note_failure :
    ℕ → Option CompileError → List (ℕ × CompileError) → List (ℕ × CompileError)
note_failure line none failures = failures
note_failure line (some e) failures = failures ++ ((line, e) ∷ [])

-- The loop of `compile_macro`, from the index of its next line.
unfoldable pub compile_lines :
    Option Layout
    → CapsLock
    → ℕ
    → List (List ℕ)
    → MacroState
    → List (ℕ × CompileError)
    → MacroState × List (ℕ × CompileError)
unfolding compile_line trim_start
compile_lines caller caps i [] s failures = (s, failures)
compile_lines caller caps i (raw ∷ rest) s failures =
    let line = trim_start raw in
    let (failed, s') = compile_line caller caps line s in
    compile_lines caller caps (suc i) rest (if is_skipped line then s else s')
      (if is_skipped line then failures else note_failure (i + 1) failed failures)

abbrev pub macro_outcome : List Step → List (ℕ × CompileError) → Result (List Step) MacroError
macro_outcome script ((line, e) ∷ []) = err (macro line e)
macro_outcome script (f ∷ g ∷ failures) = err (macro_lines (f ∷ g ∷ failures))
macro_outcome [] [] = err empty_macro
macro_outcome (step ∷ steps) [] = ok (step ∷ steps)

abbrev layout_or_default : Option Layout → Layout
layout_or_default none = us
layout_or_default (some layout) = layout

unfoldable pub compile_macro : List ℕ → Option Layout → CapsLock → Result (List Step) MacroError
unfolding compile_lines lines
compile_macro source caller caps =
    let (s, failures) =
      compile_lines caller caps 0 (lines source)
        (record { script = []; active = layout_or_default caller; declared = false }) [] in
    macro_outcome s.script failures
