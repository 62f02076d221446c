-- ===== src/Script/Compile/Typing.antt =====
-- src/script/compile.rs: what a compiled text types on the target.
use nano_kvm_usb_rs.Prelude.{
  ℕ, suc, ◌+◌, List, [], ◌∷◌, ◌++◌, map, Bool, true, false, Option, some, ◌==◌, if◌then◌else◌,
  Result, ok, err, arith, ◌≡◌, refl, inl, inr, ◌⊎◌, subst, Bool-cases, append_assoc, append-nil,
  All, sym, ap, ◌∙◌,
}
use nano_kvm_usb_rs.Proto.Report.{KeyboardReport, keyboard_release_all}
use nano_kvm_usb_rs.Proto.Keymap.{KeyCode, left_shift}
use nano_kvm_usb_rs.Script.Steps.{Step, tap, Label, type_label}
use nano_kvm_usb_rs.Script.Layout.{us, key_for_char}
use nano_kvm_usb_rs.Script.Layout.Board.{typed_char}
use nano_kvm_usb_rs.Script.Target.{new_keys, typed, is_down, shift_held, no_keys, reports}
use nano_kvm_usb_rs.Script.Compile.{
  Places, CapsLock, off, ignore, compensate, shift_for, CompileError, usage_of, type_chars,
  push_char, expect, find_unreachable, compile_type, has_key, seen,
}
use nano_kvm_usb_rs.Script.Compile.Strokes.{Matches, HasKey, Stroke-of}

-- The two steps of a character.
abbrev pub shift_bit : Bool → ℕ
shift_bit shift = if shift then left_shift else 0

abbrev pub press_report : ℕ → ℕ → KeyboardReport
press_report u m = record { modifiers = m; keys = u ∷ 0 ∷ 0 ∷ 0 ∷ 0 ∷ 0 ∷ [] }

shift_held-bit : (b : Bool) → shift_held (shift_bit b) ≡ some b
unfolding shift_held
shift_held-bit true = refl
shift_held-bit false = refl

-- A press on a target with no key down, and its release.
pub typed_tap :
    (lock b : Bool) (u : ℕ) (later : List KeyboardReport)
    → (u == 0) ≡ false
    → typed lock no_keys (press_report u (shift_bit b) ∷ keyboard_release_all ∷ later)
      ≡ typed_char lock b u ∷ typed lock no_keys later
unfolding typed new_keys is_down
typed_tap lock b u later h =
    let h' : (0 == u) ≡ false = ground (arith, h) in simp (h, h', shift_held-bit b) refl

-- Steps that type a text: two for each character, of a key that types it.
abbrev pub IsTyped : Bool → List ℕ → List Step → Type 0
IsTyped lock [] steps = steps ≡ []
IsTyped lock (c ∷ text) steps =
    (u : ℕ) × (b : Bool) × (l : Label) × (rest : List Step) × (steps
      ≡ tap u (shift_bit b) l [] ++ rest)
    × ((u == 0) ≡ false)
    × (typed_char lock b u ≡ some c)
    × IsTyped lock text rest

-- The script that types a text is the one before with such steps behind it.
record Typing (lock : Bool) (caps : CapsLock) (script : List Step) (text : List ℕ) : Type 0 where
  steps : List Step
  made : type_chars us caps script text ≡ ok (script ++ steps)
  taps : IsTyped lock text steps

reports-tap :
    (u m : ℕ) (l : Label) (steps : List Step)
    → reports (tap u m l [] ++ steps) ≡ press_report u m ∷ keyboard_release_all ∷ reports steps
unfolding tap
reports-tap u m l steps = refl

pub cons_eq : {x y : Option ℕ} {xs ys : List (Option ℕ)} → x ≡ y → xs ≡ ys → x ∷ xs ≡ y ∷ ys
cons_eq h t = cc

push_char_found :
    (caps : CapsLock) (script : List Step) (c u : ℕ) (key : KeyCode) (shift : Bool)
    → key_for_char us c ≡ some (key, shift)
    → usage_of key ≡ ok u
    → push_char caps script c (expect (key_for_char us c))
      ≡ ok (script ++ tap u (shift_bit (shift_for caps c shift)) (type_label c) [])
unfolding push_char tap
push_char_found caps script c u key shift found forwarded =
    rw found (rw (forwarded, push_char) refl)

pub IsTyped-typed :
    (lock : Bool) (text : List ℕ) (steps : List Step)
    → IsTyped lock text steps
    → typed lock no_keys (reports steps) ≡ map (λ c. some c) text
unfolding typed
IsTyped-typed lock [] steps e = rw e refl
IsTyped-typed lock (c ∷ text) steps (u, b, l, rest, e, n, t, later) =
    ap (λ s. typed lock no_keys (reports s)) e
    ∙ ap (typed lock no_keys) (reports-tap u (shift_bit b) l rest)
    ∙ typed_tap lock b u (reports rest) n
    ∙ cons_eq t (IsTyped-typed lock text rest later)

type_chars-Typing :
    (lock : Bool) (caps : CapsLock) (script : List Step) (text : List ℕ)
    → Matches lock caps
    → All HasKey text
    → Typing lock caps script text
unfolding type_chars
type_chars-Typing lock caps script [] m a = record {
  steps = [];
  made = ap ok (sym (append-nil script));
  taps = refl;
}
type_chars-Typing lock caps script (c ∷ text) m a =
    let k = Stroke-of lock caps c m a.0 in
    let b = shift_for caps c k.shift in
    let pair = tap k.code (shift_bit b) (type_label c) [] in
    let later = type_chars-Typing lock caps (script ++ pair) text m a.1 in
    record {
      steps = pair ++ later.steps;
      made =
          rw (push_char_found caps script c k.code k.key k.shift k.found k.forwarded, type_chars)
            (later.made ∙ ap ok (append_assoc script pair later.steps));
      taps = (k.code, b, type_label c, later.steps, refl, k.nonzero, k.shown, later.taps);
    }

pub typable :
    (caps : CapsLock) (text : List ℕ)
    → All HasKey text
    → (steps : List Step) × (type_chars us caps [] text ≡ ok steps)
typable off text a = let t = type_chars-Typing false off [] text tt a in (t.steps, t.made)
typable ignore text a = let t = type_chars-Typing false ignore [] text tt a in (t.steps, t.made)
typable compensate text a =
    let t = type_chars-Typing true compensate [] text tt a in (t.steps, t.made)

none_seen : (c : ℕ) → seen c [] ≡ true → ⊥
unfolding seen
none_seen c h = cc

append_cons_nil : (xs : List (ℕ × ℕ)) (x : ℕ × ℕ) → xs ++ (x ∷ []) ≡ [] → ⊥
append_cons_nil [] x h = cc
append_cons_nil (y ∷ ys) x h = cc

refused :
    {e : CompileError} {script : List Step}
    → ◌≡◌ {A = Result (List Step) CompileError} (err e) (ok script)
    → ⊥
refused h = cc

ok_eq : {s t : List Step} → ◌≡◌ {A = Result (List Step) CompileError} (ok s) (ok t) → s ≡ t
ok_eq h = cc

Places-cases : (ps : Places) → (ps ≡ []) ⊎ ((p : ℕ × ℕ) × (qs : Places) × (ps ≡ p ∷ qs))
Places-cases [] = inl refl
Places-cases (p ∷ qs) = inr (p, qs, refl)

pub nothing_found :
    (text : List ℕ) (i : ℕ) (places : List (ℕ × ℕ))
    → find_unreachable us i places text ≡ []
    → (places ≡ []) × All HasKey text
unfolding find_unreachable
nothing_found [] i places h = (h, tt)
nothing_found (c ∷ text) i places h = elim (Bool-cases (has_key (key_for_char us c))) [
  | inl e ↦
      (let (p, a) = nothing_found text (suc i) places (rw (e, find_unreachable) at h) in
        (p, (e, a)))
  | inr e ↦ elim (Bool-cases (seen c places)) [
    | inl f ↦
        (let (p, a) = nothing_found text (suc i) places (rw (e, f, find_unreachable) at h) in
          absurd (none_seen c (rw p at f)))
    | inr f ↦
        (let (p, a) =
            nothing_found text (suc i) (places ++ ((c, i + 1) ∷ []))
              (rw (e, f, find_unreachable) at h) in
          absurd (append_cons_nil places (c, i + 1) p))
  ]
]

-- The steps of a text that compiles.
pub compile_type-IsTyped :
    (lock : Bool) (caps : CapsLock) (text : List ℕ) {script : List Step}
    → Matches lock caps
    → compile_type text us caps ≡ ok script
    → IsTyped lock text script
unfolding compile_type
compile_type-IsTyped lock caps [] m h = absurd (refused h)
compile_type-IsTyped lock caps (c ∷ text) {script} m h =
    elim (Places-cases (find_unreachable us 0 [] (c ∷ text))) [
      | inl e ↦
          (let t =
              type_chars-Typing lock caps [] (c ∷ text) m (nothing_found (c ∷ text) 0 [] e).1 in
            let same : t.steps ≡ script = ok_eq (sym t.made ∙ (rw e at h)) in
            subst (λ s. IsTyped lock (c ∷ text) s) same t.taps)
      | inr (p, ps, e) ↦ absurd (refused (rw e at h))
    ]

-- Text that compiles types itself: on a US keyboard whose target has CapsLock as the compilation took it
-- to be, the reports of the script type exactly the characters of the text, in order.
pub compile_type-types :
    (lock : Bool) (caps : CapsLock) (text : List ℕ) {script : List Step}
    → Matches lock caps
    → compile_type text us caps ≡ ok script
    → typed lock no_keys (reports script) ≡ map (λ c. some c) text
compile_type-types lock caps text {script} m h =
    IsTyped-typed lock text script (compile_type-IsTyped lock caps text m h)
