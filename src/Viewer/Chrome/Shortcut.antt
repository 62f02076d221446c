-- ===== src/Viewer/Chrome/Shortcut.antt =====
-- src/viewer/chrome/shortcut.rs: reports turned into key transitions.
use nano_kvm_usb_rs.Prelude.{
  ℕ, ◌-◌, List, [], ◌∷◌, ◌++◌, Bool, true, false, ◌||◌, ◌==◌, if◌then◌else◌, bit_and, Result, ok,
  err,
}
use nano_kvm_usb_rs.Prelude.Text.{chars}
use nano_kvm_usb_rs.Proto.Report.{KeyboardReport, keyboard_release_all, modifier, usage}
use nano_kvm_usb_rs.Input.Event.{Event}
use nano_kvm_usb_rs.Script.Steps.{Step, send, wait}
use nano_kvm_usb_rs.Script.Layout.{us}
use nano_kvm_usb_rs.Script.Compile.{CompileError, compile_key}

pub data Builtin : Type 0 where
  win_tab ctrl_alt_del : Builtin

-- `Builtin::chord`.
unfoldable pub chord : Builtin → List ℕ
unfolding chars
chord win_tab = chars "super+tab"
chord ctrl_alt_del = chars "ctrl+alt+delete"

-- The set bits of a mask, lowest first.
unfoldable pub bits_of : List ℕ → ℕ → List ℕ
bits_of [] mask = []
bits_of (b ∷ bs) mask = let rest = bits_of bs mask in if bit_and mask b == 0 then rest else b ∷ rest

unfoldable pub modifier_bits : ℕ → List ℕ
unfolding bits_of
modifier_bits = bits_of (1 ∷ 2 ∷ 4 ∷ 8 ∷ 16 ∷ 32 ∷ 64 ∷ 128 ∷ [])

unfoldable pub contains : ℕ → List ℕ → Bool
contains u [] = false
contains u (k ∷ ks) = k == u || contains u ks

-- The usages of a report that another does not hold, 0 being no key.
unfoldable pub usages_without : List ℕ → List ℕ → List ℕ
unfolding contains
usages_without others [] = []
usages_without others (u ∷ usages) =
    let rest = usages_without others usages in
    if u == 0 || contains u others then rest else u ∷ rest

abbrev pub usage_events : Bool → List ℕ → List Event
usage_events down [] = []
usage_events down (u ∷ usages) = Event.key (usage u) down ∷ usage_events down usages

abbrev pub modifier_events : Bool → List ℕ → List Event
modifier_events down [] = []
modifier_events down (b ∷ bs) = Event.key (modifier b) down ∷ modifier_events down bs

-- One turn of the loop: releases before presses, usages released before modifiers and pressed
-- behind them.
unfoldable pub differences : KeyboardReport → KeyboardReport → List Event
unfolding modifier_bits usages_without
differences held next =
    usage_events false (usages_without next.keys held.keys)
    ++ (modifier_events false (modifier_bits (bit_and held.modifiers (255 - next.modifiers)))
        ++ (modifier_events true (modifier_bits (bit_and next.modifiers (255 - held.modifiers)))
            ++ usage_events true (usages_without held.keys next.keys)))

unfoldable pub transitions_from : KeyboardReport → List Step → List Event
unfolding differences
transitions_from held [] = []
transitions_from held (wait ms ∷ steps) = transitions_from held steps
transitions_from held (send o ∷ steps) =
    differences held o.report ++ transitions_from o.report steps

unfoldable pub transitions : List Step → List Event
unfolding transitions_from
transitions = transitions_from keyboard_release_all

abbrev events_of : Result (List Step) CompileError → Result (List Event) CompileError
events_of (ok script) = ok (transitions script)
events_of (err e) = err e

unfoldable pub events : Builtin → Result (List Event) CompileError
unfolding transitions
events builtin = events_of (compile_key (chord builtin ∷ []) us)
