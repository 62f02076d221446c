-- ===== src/Script/Target.antt =====
-- What a target types from keyboard reports: the reports of a USB keyboard, as its host reads them.
use nano_kvm_usb_rs.Prelude.{
  ℕ, List, [], ◌∷◌, ◌++◌, Bool, false, not, ◌||◌, Option, none, some, ◌==◌, if◌then◌else◌, bit_and,
}
use nano_kvm_usb_rs.Proto.Report.{KeyboardReport, keyboard_release_all}
use nano_kvm_usb_rs.Script.Steps.{Step, send, wait}
use nano_kvm_usb_rs.Script.Layout.Board.{typed_char}

-- Whether Shift is held; `none` when a modifier is held that makes a shortcut of the key.
unfoldable pub shift_held : ℕ → Option Bool
shift_held modifiers =
    if bit_and modifiers 0xDD == 0 then some (not (bit_and modifiers 0x22 == 0)) else none

abbrev pub press : Bool → ℕ → Option Bool → Option ℕ
press lock usage none = none
press lock usage (some shift) = typed_char lock shift usage

unfoldable pub is_down : ℕ → List ℕ → Bool
is_down usage [] = false
is_down usage (k ∷ ks) = k == usage || is_down usage ks

-- The keys of a report that were not down before it, each with what it types.
unfoldable pub new_keys : Bool → ℕ → List ℕ → List ℕ → List (Option ℕ)
unfolding is_down shift_held typed_char
new_keys lock modifiers before [] = []
new_keys lock modifiers before (k ∷ ks) =
    let rest = new_keys lock modifiers before ks in
    if k == 0 || is_down k before then rest else press lock k (shift_held modifiers) ∷ rest

-- The reports in order, with the keys that are down before them.
unfoldable pub typed : Bool → List ℕ → List KeyboardReport → List (Option ℕ)
unfolding new_keys
typed lock before [] = []
typed lock before (r ∷ rs) = new_keys lock r.modifiers before r.keys ++ typed lock r.keys rs

abbrev pub no_keys : List ℕ
no_keys = keyboard_release_all.keys

-- The reports that a script sends.
abbrev pub reports : List Step → List KeyboardReport
reports [] = []
reports (send o ∷ steps) = o.report ∷ reports steps
reports (wait ms ∷ steps) = reports steps
