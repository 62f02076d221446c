-- ===== src/Input/Held.antt =====
-- src/input/held.rs: the keys, modifiers and buttons that are physically held.
pub mod Slots
pub mod Apply
use nano_kvm_usb_rs.Prelude.{
  ℕ, zero, suc, ◌+◌, ◌-◌, List, [], ◌∷◌, ◌++◌, Bool, true, false, ◌||◌, Option, none, some, ◌==◌,
  ltb, if◌then◌else◌, bit_and, bit_or,
}
use nano_kvm_usb_rs.Proto.Report.{HidKey, modifier, usage, KeyboardReport}

abbrev pub slots : ℕ
slots = 6

pub data Status : Type 0 where
  reported suppressed : Status

pub record HeldKey : Type 0 where
  pub usage : ℕ
  pub status : Status

pub record HeldState : Type 0 where
  pub keys : List HeldKey
  pub modifiers : ℕ
  pub buttons : ℕ

-- `HeldState::new`, and what `clear` leaves.
abbrev pub new : HeldState
new = record { keys = []; modifiers = 0; buttons = 0 }

unfoldable pub clear : HeldState → HeldState
clear h = new

-- The usages of the keys whose status is `Reported`, in press order.
unfoldable pub reported_usages : List HeldKey → List ℕ
reported_usages [] = []
reported_usages (k ∷ ks) =
    let rest = reported_usages ks in elim k.status [ reported ↦ k.usage ∷ rest | suppressed ↦ rest ]

-- `[0u8; n]` zipped with the usages.
unfoldable pub fill : ℕ → List ℕ → List ℕ
fill zero us = []
fill (suc n) [] = 0 ∷ fill n []
fill (suc n) (u ∷ us) = u ∷ fill n us

unfoldable pub report : HeldState → KeyboardReport
report h = record { modifiers = h.modifiers; keys = fill slots (reported_usages h.keys) }

unfoldable pub reported_count : List HeldKey → ℕ
reported_count [] = 0
reported_count (k ∷ ks) =
    let rest = reported_count ks in elim k.status [ reported ↦ suc rest | suppressed ↦ rest ]

-- `keys.iter().any(|k| k.usage == usage)`.
unfoldable pub holds : ℕ → List HeldKey → Bool
holds u [] = false
holds u (k ∷ ks) = k.usage == u || holds u ks

-- `position` and `remove`: the first key of this usage and the others.
unfoldable pub remove : ℕ → List HeldKey → Option (HeldKey × List HeldKey)
remove u [] = none
remove u (k ∷ ks) =
    let rest = remove u ks in
    if k.usage == u
    then some (k, ks)
    else elim rest [ none ↦ none | some (r, others) ↦ some (r, k ∷ others) ]

-- `!bit` of a `u8`.
abbrev pub bit_not : ℕ → ℕ
bit_not b = 255 - b

unfoldable pub press_usage : ℕ → HeldState → Option KeyboardReport × HeldState
press_usage u h =
    if holds u h.keys
    then (none, h)
    else if ltb (reported_count h.keys) slots
    then (let h' = record h { keys = h.keys ++ (record { usage = u; status = reported } ∷ []) } in
        (some (report h'), h'))
    else (none, record h { keys = h.keys ++ (record { usage = u; status = suppressed } ∷ []) })

unfoldable pub release_usage : ℕ → HeldState → Option KeyboardReport × HeldState
release_usage u h = elim (remove u h.keys) [
  | none ↦ (none, h)
  | some (removed, others) ↦
      (let h' = record h { keys = others } in
        (elim removed.status [ reported ↦ some (report h') | suppressed ↦ none ], h'))
]

-- The report to send, or `none` when nothing observable changed.
unfoldable pub apply_key : HidKey → Bool → HeldState → Option KeyboardReport × HeldState
unfolding press_usage release_usage
apply_key (modifier bit) down h =
    let next = if down then bit_or h.modifiers bit else bit_and h.modifiers (bit_not bit) in
    if next == h.modifiers
    then (none, h)
    else let h' = record h { modifiers = next } in (some (report h'), h')
apply_key (usage u) true h = press_usage u h
apply_key (usage u) false h = release_usage u h

unfoldable pub apply_button : ℕ → Bool → HeldState → Option ℕ × HeldState
apply_button mask down h =
    let next = if down then bit_or h.buttons mask else bit_and h.buttons (bit_not mask) in
    if next == h.buttons then (none, h) else (some next, record h { buttons = next })
