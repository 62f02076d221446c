-- ===== src/Script/Compile/Strokes.antt =====
-- src/script/compile.rs: the chord of a character types that character, on any setting of CapsLock.
use nano_kvm_usb_rs.Prelude.{
  ℕ, ◌≤◌, Bool, true, false, not, ◌&&◌, Option, none, some, ◌==◌, if◌then◌else◌, Result, ok, err,
  arith, ◌≡◌, refl, inl, inr, Option-cases, ==→eq,
}
use native.Mathlib.Decide.{dec_lt}
use nano_kvm_usb_rs.Prelude.Bits.{agree, agree_at}
use nano_kvm_usb_rs.Proto.Keymap.{KeyCode}
use nano_kvm_usb_rs.Script.Layout.{
  us, key_for_char, us_key_for_char, find_punctuation, position, named_key, shifted_digits,
}
use nano_kvm_usb_rs.Script.Layout.Board.{typed_char}
use nano_kvm_usb_rs.Script.Compile.{
  CapsLock, off, ignore, compensate, shift_for, CompileError, usage_of, has_key,
}

-- Nothing outside ASCII has a key.
none_above : (c : ℕ) → 128 ≤ c → key_for_char us c ≡ none
unfolding key_for_char us_key_for_char find_punctuation position named_key shifted_digits
none_above c h = ground arith

abbrev same_char : ℕ → Option ℕ → Bool
same_char c none = false
same_char c (some d) = c == d

-- Whether the key of a character types it, and is a key at all.
abbrev pub types : Bool → CapsLock → ℕ → Option (KeyCode × Bool) → Bool
types lock caps c none = true
types lock caps c (some (key, shift)) = elim (usage_of key) [
  | ok u ↦ not (u == 0) && same_char c (typed_char lock (shift_for caps c shift) u)
  | err e ↦ false
]

abbrev tests : Bool → CapsLock → ℕ → ℕ
tests lock caps c = if types lock caps c (key_for_char us c) then 1 else 0

table_off : agree (tests false off) (λ c. 1) 128 ≡ true
unfolding agree usage_of typed_char shift_for key_for_char
table_off = refl

table_ignore : agree (tests false ignore) (λ c. 1) 128 ≡ true
unfolding agree usage_of typed_char shift_for key_for_char
table_ignore = refl

table_compensate : agree (tests true compensate) (λ c. 1) 128 ≡ true
unfolding agree usage_of typed_char shift_for key_for_char
table_compensate = refl

-- The target's CapsLock and what the text was compiled for.
abbrev pub Matches : Bool → CapsLock → Type 0
Matches false off = Unit
Matches false ignore = Unit
Matches true compensate = Unit
Matches _ _ = ⊥

tested : (b : Bool) → ◌≡◌ {A = ℕ} (if b then 1 else 0) 1 → b ≡ true
tested b h = ground arith

types_ascii :
    (lock : Bool) (caps : CapsLock) (c : ℕ)
    → agree (tests lock caps) (λ d. 1) 128 ≡ true
    → types lock caps c (key_for_char us c) ≡ true
types_ascii lock caps c table = elim (dec_lt c 128) [
  | yes h ↦ tested _ (agree_at (tests lock caps) (λ d. 1) 128 c table h)
  | no h ↦ rw (none_above c (omega (arith, h))) refl
]

types_all :
    (lock : Bool) (caps : CapsLock) (c : ℕ)
    → Matches lock caps
    → types lock caps c (key_for_char us c) ≡ true
types_all false off c m = types_ascii false off c table_off
types_all false ignore c m = types_ascii false ignore c table_ignore
types_all false compensate c m = elim m [ ]
types_all true off c m = elim m [ ]
types_all true ignore c m = elim m [ ]
types_all true compensate c m = types_ascii true compensate c table_compensate

abbrev pub HasKey : ℕ → Type 0
HasKey c = has_key (key_for_char us c) ≡ true

-- The key of a character, and what it types.
pub record Stroke (lock : Bool) (caps : CapsLock) (c : ℕ) : Type 0 where
  pub key : KeyCode
  pub shift : Bool
  pub code : ℕ
  pub found : key_for_char us c ≡ some (key, shift)
  pub forwarded : usage_of key ≡ ok code
  pub nonzero : (code == 0) ≡ false
  pub shown : typed_char lock (shift_for caps c shift) code ≡ some c

same_char_sound : (c : ℕ) (o : Option ℕ) → same_char c o ≡ true → o ≡ some c
same_char_sound c none h = cc
same_char_sound c (some d) h = ground (arith, ==→eq c d)

pub Stroke-of :
    (lock : Bool) (caps : CapsLock) (c : ℕ) → Matches lock caps → HasKey c → Stroke lock caps c
Stroke-of lock caps c m h = elim (Option-cases (key_for_char us c)) [
  | inl e ↦ absurd (nothing (rw e at h))
  | inr ((k, s), e) ↦ from_usage k s e (usage_of k) refl (rw e at (types_all lock caps c m))
]
  where
    nothing : ◌≡◌ {A = Bool} false true → ⊥
    nothing z = cc

    from_usage :
        (k : KeyCode) (s : Bool)
        → key_for_char us c ≡ some (k, s)
        → (r : Result ℕ CompileError) → usage_of k ≡ r
        → types lock caps c (some (k, s)) ≡ true
        → Stroke lock caps c
    from_usage k s e (err x) f t = absurd (nothing (rw (f, types) at t))
    from_usage k s e (ok u) f t =
        let t' : (not (u == 0) && same_char c (typed_char lock (shift_for caps c s) u)) ≡ true =
          rw (f, types) at t in
        record {
          key = k;
          shift = s;
          code = u;
          found = e;
          forwarded = f;
          nonzero = ground (arith, t');
          shown = same_char_sound c _ (ground (arith, t'));
        }
