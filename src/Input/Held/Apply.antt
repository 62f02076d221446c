-- ===== src/Input/Held/Apply.antt =====
-- What a key transition does to the report: src/input/held.rs.
use nano_kvm_usb_rs.Prelude.{
  ℕ, List, [], ◌∷◌, ◌++◌, Bool, true, false, Option, none, some, ◌==◌, ltb, if◌then◌else◌, bit_and,
  bit_or, length, arith, ◌≡◌, refl, ap, inl, inr, Bool-cases, Option-cases,
}
use nano_kvm_usb_rs.Proto.Report.{HidKey, modifier, usage, KeyboardReport}
use nano_kvm_usb_rs.Input.Held.{
  HeldState, HeldKey, Status, reported, suppressed, reported_usages, reported_count, holds, remove,
  report, press_usage, release_usage, apply_key, bit_not, fill,
}
use nano_kvm_usb_rs.Input.Held.Slots.{
  IsValid, without, length-reported_usages, AreDistinct-append, reported_count-append,
  reported_usages-append, AreDistinct-remove, reported_count-remove, without_of_not_held,
  holds_of_remove-none, reported_usages-remove,
}

press_usage-IsValid : (u : ℕ) (h : HeldState) → IsValid h → IsValid (press_usage u h).1
unfolding press_usage
press_usage-IsValid u h v = elim (Bool-cases (holds u h.keys)) [
  | inl e ↦ rw e v
  | inr e ↦
      (let k : HeldKey = record { usage = u; status = reported } in
        let s : HeldKey = record { usage = u; status = suppressed } in
        ground (
          arith,
          e,
          v.fits,
          reported_count-append h.keys u,
          AreDistinct-append h.keys k v.distinct e,
          AreDistinct-append h.keys s v.distinct e,
        ))
]

release_usage-IsValid : (u : ℕ) (h : HeldState) → IsValid h → IsValid (release_usage u h).1
unfolding release_usage
release_usage-IsValid u h v = elim (Option-cases (remove u h.keys)) [
  | inl e ↦ rw (e, release_usage) v
  | inr ((k, others), e) ↦
      rw (e, release_usage)
        (record {
          distinct = AreDistinct-remove u h.keys k others e v.distinct;
          fits = omega (arith, v.fits, reported_count-remove u h.keys k others e);
        })
]

-- Every transition keeps the keys distinct and at most six of them in the report.
pub apply_key-IsValid :
    (key : HidKey) (down : Bool) (h : HeldState) → IsValid h → IsValid (apply_key key down h).1
unfolding apply_key
apply_key-IsValid (modifier bit) down h v = ground (arith, v.distinct, v.fits)
apply_key-IsValid (usage u) true h v = press_usage-IsValid u h v
apply_key-IsValid (usage u) false h v = release_usage-IsValid u h v

-- The usages in the report after a transition, from those before and from whether the key is held.
abbrev pub slots_after : HidKey → Bool → Bool → List ℕ → List ℕ
slots_after (modifier bit) down held us = us
slots_after (usage u) true held us =
    if held then us else if ltb (length us) 6 then us ++ (u ∷ []) else us
slots_after (usage u) false held us = without u us

abbrev pub is_held : HidKey → HeldState → Bool
is_held (modifier bit) h = false
is_held (usage u) h = holds u h.keys

-- A press takes a free slot behind the others, or none when the key is held or six are reported; a
-- release takes the key out and promotes no key that was pressed while the slots were taken.
pub reported_usages-apply_key :
    (key : HidKey) (down : Bool) (h : HeldState)
    → IsValid h
    → reported_usages (apply_key key down h).1.keys
      ≡ slots_after key down (is_held key h) (reported_usages h.keys)
unfolding apply_key press_usage release_usage
reported_usages-apply_key (modifier bit) down h v = ground arith
reported_usages-apply_key (usage u) true h v =
    ground (arith, length-reported_usages h.keys, reported_usages-append h.keys u)
reported_usages-apply_key (usage u) false h v = elim (Option-cases (remove u h.keys)) [
  | inl e ↦ ground (arith, e, without_of_not_held u h.keys (holds_of_remove-none u h.keys e))
  | inr ((k, others), e) ↦ ground (arith, e, reported_usages-remove u h.keys k others e v.distinct)
]

reported_usages-remove_suppressed :
    (u : ℕ) (ks : List HeldKey) (k : HeldKey) (others : List HeldKey)
    → remove u ks ≡ some (k, others)
    → k.status ≡ suppressed
    → reported_usages others ≡ reported_usages ks
unfolding remove reported_usages
reported_usages-remove_suppressed u [] k others e s = cc
reported_usages-remove_suppressed u (j ∷ ks) k others e s = elim (Option-cases (remove u ks)) [
  | inl p ↦ ground (arith, p)
  | inr ((r, rest), p) ↦ ground (arith, p, reported_usages-remove_suppressed u ks r rest p)
]

-- What the answer says of the report before and after.
abbrev pub Answers : Option KeyboardReport → KeyboardReport → KeyboardReport → Type 0
Answers none before after = after ≡ before
Answers (some r) before after = r ≡ after

press_usage-Answers :
    (u : ℕ) (h : HeldState) → Answers (press_usage u h).0 (report h) (report (press_usage u h).1)
unfolding press_usage report
press_usage-Answers u h = elim (Bool-cases (holds u h.keys)) [
  | inl e ↦ rw e refl
  | inr e ↦ elim (Bool-cases (ltb (reported_count h.keys) 6)) [
    | inl f ↦ rw (e, f) refl
    | inr f ↦ rw (e, f, (reported_usages-append h.keys u).1) refl
  ]
]

removed-Answers :
    (s : Status) (before after : KeyboardReport)
    → (s ≡ suppressed → after ≡ before)
    → Answers (elim s [ reported ↦ some after | suppressed ↦ none ]) before after
removed-Answers reported before after h = refl
removed-Answers suppressed before after h = h refl

release_usage-Answers :
    (u : ℕ) (h : HeldState)
    → Answers (release_usage u h).0 (report h) (report (release_usage u h).1)
unfolding release_usage report
release_usage-Answers u h = elim (Option-cases (remove u h.keys)) [
  | inl e ↦ rw (e, release_usage) refl
  | inr ((k, others), e) ↦
      rw (e, release_usage)
        (removed-Answers k.status (report h) (report (record h { keys = others })) (λ z.
          ap (λ us. record { modifiers = h.modifiers; keys = fill 6 us })
            (reported_usages-remove_suppressed u h.keys k others e z)))
]

-- A transition answers with the new report, and with none only when the report stays the same.
pub apply_key-Answers :
    (key : HidKey) (down : Bool) (h : HeldState)
    → Answers (apply_key key down h).0 (report h) (report (apply_key key down h).1)
unfolding apply_key
apply_key-Answers (modifier bit) down h =
    let next = if down then bit_or h.modifiers bit else bit_and h.modifiers (bit_not bit) in
    elim (Bool-cases (next == h.modifiers)) [ inl e ↦ rw e refl | inr e ↦ rw e refl ]
apply_key-Answers (usage u) true h = press_usage-Answers u h
apply_key-Answers (usage u) false h = release_usage-Answers u h
