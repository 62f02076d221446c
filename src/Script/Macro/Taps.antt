-- ===== src/Script/Macro/Taps.antt =====
-- What a script may send: src/script/compile.rs.
use nano_kvm_usb_rs.Prelude.{
  ℕ, suc, ◌≤◌, List, [], ◌∷◌, ◌++◌, Bool, true, false, Option, ltb, if◌then◌else◌, Result, ok, err,
  arith, ◌≡◌, refl, inl, inr, Bool-cases, Option-cases, Result-cases, subst, sym, ltb_false→le,
}
use nano_kvm_usb_rs.Prelude.Text.{
  lines, trim, trim_start, eq_ignore_ascii_case, split_once, chars, parse_u64,
}
use nano_kvm_usb_rs.Proto.Keymap.{KeyCode}
use nano_kvm_usb_rs.Proto.Report.{keyboard_release_all}
use nano_kvm_usb_rs.Script.Steps.{Step, send, wait, tap, Label, key_label}
use nano_kvm_usb_rs.Script.Layout.{Layout}
use nano_kvm_usb_rs.Script.Chord.{Chord, parse_chord_with}
use nano_kvm_usb_rs.Script.Compile.{
  CapsLock, CompileError, usage_of, push_chord, push_char, expect, type_chars, compile_type,
  refuse_unreachable, find_unreachable,
}
use nano_kvm_usb_rs.Script.Layout.{key_for_char}
use nano_kvm_usb_rs.Script.Macro.{
  MacroState, MacroError, max_wait, extend, appended, declare_layout, layout_line, key_line,
  wait_line, step_line, compile_line, compile_lines, macro_outcome, compile_macro, is_empty,
  LineResult, split_word, is_skipped,
}

-- One key at most beside the modifiers.
abbrev pub IsOneKey : List ℕ → Type 0
IsOneKey keys = (u : ℕ) × (keys ≡ u ∷ 0 ∷ 0 ∷ 0 ∷ 0 ∷ 0 ∷ [])

-- Every press is followed at once by the release of everything; a wait takes an hour at most.
abbrev pub IsTapped : List Step → Type 0
IsTapped [] = Unit
IsTapped (wait ms ∷ steps) = (ms ≤ 3600000) × IsTapped steps
IsTapped (send p ∷ []) = ⊥
IsTapped (send p ∷ wait ms ∷ steps) = ⊥
IsTapped (send p ∷ send r ∷ steps) =
    IsOneKey p.report.keys × (r.report ≡ keyboard_release_all) × IsTapped steps

IsTapped-append : (xs ys : List Step) → IsTapped xs → IsTapped ys → IsTapped (xs ++ ys)
IsTapped-append [] ys a b = b
IsTapped-append (wait ms ∷ xs) ys a b = (a.0, IsTapped-append xs ys a.1 b)
IsTapped-append (send p ∷ []) ys a b = elim a [ ]
IsTapped-append (send p ∷ wait ms ∷ xs) ys a b = elim a [ ]
IsTapped-append (send p ∷ send r ∷ xs) ys (k, e, a) b = (k, e, IsTapped-append xs ys a b)

tap-IsTapped :
    (u m : ℕ) (l : Label) (steps : List Step) → IsTapped steps → IsTapped (tap u m l steps)
unfolding tap
tap-IsTapped u m l steps a = IsTapped-append steps _ a ((u, refl), refl, tt)

-- What a compilation leaves, if it leaves a script.
abbrev AllTapped : Result (List Step) CompileError → Type 0
AllTapped (ok steps) = IsTapped steps
AllTapped (err e) = Unit

either-AllTapped :
    (r : Result ℕ CompileError) (m : ℕ) (l : Label) (steps : List Step)
    → IsTapped steps
    → AllTapped (elim r as (λ x. Result (List Step) CompileError) [
      | ok u ↦ ok (tap u m l steps)
      | err e ↦ err e
    ])
either-AllTapped (ok u) m l steps a = tap-IsTapped u m l steps a
either-AllTapped (err e) m l steps a = tt

push_chord-AllTapped :
    (steps : List Step) (c : Chord) (l : Label) → IsTapped steps → AllTapped (push_chord steps c l)
unfolding push_chord
push_chord-AllTapped steps c l a = elim (Option-cases c.key) [
  | inl e ↦ rw (e, push_chord) (tap-IsTapped 0 c.modifiers l steps a)
  | inr (key, e) ↦ rw (e, push_chord) (either-AllTapped (usage_of key) c.modifiers l steps a)
]

push_char-AllTapped :
    (caps : CapsLock) (steps : List Step) (c : ℕ) (found : KeyCode × Bool)
    → IsTapped steps
    → AllTapped (push_char caps steps c found)
unfolding push_char
push_char-AllTapped caps steps c found a = either-AllTapped (usage_of found.0) _ _ steps a

type_chars-AllTapped :
    (layout : Layout) (caps : CapsLock) (steps : List Step) (text : List ℕ)
    → IsTapped steps
    → AllTapped (type_chars layout caps steps text)
unfolding type_chars
type_chars-AllTapped layout caps steps [] a = a
type_chars-AllTapped layout caps steps (c ∷ text) a =
    elim (Result-cases (push_char caps steps c (expect (key_for_char layout c)))) [
      | inl (s, e) ↦
          rw (e, type_chars)
            (type_chars-AllTapped layout caps s text
              (rw e at (push_char-AllTapped caps steps c (expect (key_for_char layout c)) a)))
      | inr (x, e) ↦ rw (e, type_chars) tt
    ]

compile_type-AllTapped :
    (text : List ℕ) (layout : Layout) (caps : CapsLock) → AllTapped (compile_type text layout caps)
unfolding compile_type
compile_type-AllTapped [] layout caps = tt
compile_type-AllTapped (c ∷ text) layout caps =
    elim (find_unreachable layout 0 [] (c ∷ text))
      as (λ ps. AllTapped (refuse_unreachable layout ps (type_chars layout caps [] (c ∷ text)))) [
        | [] ↦ type_chars-AllTapped layout caps [] (c ∷ text) tt
        | p ∷ ps ↦ tt
      ]

-- A line keeps a tapped script tapped, whether it fails or not.
abbrev Keeps : LineResult → Type 0
Keeps (failed, s) = IsTapped s.script

extend-Keeps :
    (s : MacroState) (r : Result (List Step) CompileError)
    → IsTapped s.script
    → AllTapped r
    → Keeps (extend s r)
extend-Keeps s (ok script) a b = b
extend-Keeps s (err e) a b = a

appended-AllTapped :
    (script : List Step) (r : Result (List Step) CompileError)
    → IsTapped script
    → AllTapped r
    → AllTapped (appended script r)
appended-AllTapped script (ok steps) a b = IsTapped-append script steps a b
appended-AllTapped script (err e) a b = tt

if-Keeps : (b : Bool) (x y : LineResult) → Keeps x → Keeps y → Keeps (if b then x else y)
if-Keeps true x y h k = h
if-Keeps false x y h k = k

layout_line-script :
    (caller : Option Layout) (name : List ℕ) (s : MacroState)
    → (layout_line caller name s).1.script ≡ s.script
unfolding layout_line declare_layout
layout_line-script caller name s = ground arith

layout_line-Keeps :
    (caller : Option Layout) (name : List ℕ) (s : MacroState)
    → IsTapped s.script
    → Keeps (layout_line caller name s)
layout_line-Keeps caller name s a =
    subst (λ steps. IsTapped steps) (sym (layout_line-script caller name s)) a

key_line-Keeps : (text : List ℕ) (s : MacroState) → IsTapped s.script → Keeps (key_line text s)
unfolding key_line
key_line-Keeps text s a = elim (Result-cases (parse_chord_with s.active text)) [
  | inl (c, e) ↦
      rw (e, key_line)
        (if-Keeps (is_empty text) _ _ a (
          extend-Keeps s (push_chord s.script c (key_label text)) a
            (push_chord-AllTapped s.script c (key_label text) a)))
  | inr (x, e) ↦ rw (e, key_line) (if-Keeps (is_empty text) _ _ a a)
]

wait_line-Keeps : (value : List ℕ) (s : MacroState) → IsTapped s.script → Keeps (wait_line value s)
unfolding wait_line
wait_line-Keeps value s a = elim (Option-cases (parse_u64 value)) [
  | inl e ↦ rw (e, wait_line) a
  | inr (ms, e) ↦ elim (Bool-cases (ltb max_wait ms)) [
    | inl f ↦ rw (e, f, wait_line) a
    | inr f ↦ rw (e, f, wait_line) (IsTapped-append s.script _ a (ltb_false→le max_wait ms f, tt))
  ]
]

step_line-Keeps :
    (caps : CapsLock) (word rest : List ℕ) (s : MacroState)
    → IsTapped s.script
    → Keeps (step_line caps word rest s)
unfolding step_line
step_line-Keeps caps word rest s a =
    if-Keeps (eq_ignore_ascii_case word (chars "key")) _ _ (key_line-Keeps (trim rest) s a) (
      if-Keeps (eq_ignore_ascii_case word (chars "type")) _ _
        (extend-Keeps s _ a
          (appended-AllTapped s.script _ a (compile_type-AllTapped rest s.active caps)))
        (if-Keeps (eq_ignore_ascii_case word (chars "wait")) _ _ (wait_line-Keeps (trim rest) s a)
          a))

compile_line-Keeps :
    (caller : Option Layout) (caps : CapsLock) (line : List ℕ) (s : MacroState)
    → IsTapped s.script
    → Keeps (compile_line caller caps line s)
unfolding compile_line
compile_line-Keeps caller caps line s a =
    let (word, rest) = split_word line (split_once b' ' line) in
    if-Keeps (eq_ignore_ascii_case word (chars "layout")) _ _
      (layout_line-Keeps caller (trim rest) s a)
      (step_line-Keeps caps word rest (record s { declared = true }) a)

kept :
    (skipped : Bool) (s : MacroState) (r : LineResult)
    → IsTapped s.script
    → Keeps r
    → IsTapped (if skipped then s else r.1).script
kept true s r a b = a
kept false s r a b = b

not_made :
    {e : MacroError} {script : List Step}
    → ◌≡◌ {A = Result (List Step) MacroError} (err e) (ok script)
    → ⊥
not_made h = cc

made_eq : {s t : List Step} → ◌≡◌ {A = Result (List Step) MacroError} (ok s) (ok t) → s ≡ t
made_eq h = cc

compile_lines-IsTapped :
    (caller : Option Layout) (caps : CapsLock) (i : ℕ) (ls : List (List ℕ)) (s : MacroState)
    (failures : List (ℕ × CompileError))
    → IsTapped s.script
    → IsTapped (compile_lines caller caps i ls s failures).0.script
unfolding compile_lines
compile_lines-IsTapped caller caps i [] s failures a = a
compile_lines-IsTapped caller caps i (raw ∷ rest) s failures a =
    compile_lines-IsTapped caller caps (suc i) rest _ _ (
      kept (is_skipped (trim_start raw)) s (compile_line caller caps (trim_start raw) s) a
        (compile_line-Keeps caller caps (trim_start raw) s a))

outcome-IsTapped :
    (steps : List Step) (failures : List (ℕ × CompileError)) {script : List Step}
    → IsTapped steps
    → macro_outcome steps failures ≡ ok script
    → IsTapped script
outcome-IsTapped steps (f ∷ []) a h = absurd (not_made h)
outcome-IsTapped steps (f ∷ g ∷ fs) a h = absurd (not_made h)
outcome-IsTapped [] [] a h = absurd (not_made h)
outcome-IsTapped (p ∷ steps) [] a h = subst (λ l. IsTapped l) (made_eq h) a

-- Whatever the macro, a script that compiles presses one key at a time, releases everything at once behind
-- each press, and waits for an hour at most in one step: cut off between two taps it leaves nothing
-- held on the target.
pub compile_macro-IsTapped :
    (source : List ℕ) (caller : Option Layout) (caps : CapsLock) {script : List Step}
    → compile_macro source caller caps ≡ ok script
    → IsTapped script
unfolding compile_macro
compile_macro-IsTapped source caller caps h =
    outcome-IsTapped _ _ (compile_lines-IsTapped caller caps 0 (lines source) _ [] tt) h
