-- ===== src/Viewer/Chrome/Paste.antt =====
-- src/viewer/chrome/paste.rs: the text of the clipboard turned into key transitions, or refused. The text
-- of an error is the error.
pub mod Same
pub mod Newlines
pub mod Sent
pub mod Typing
use nano_kvm_usb_rs.Prelude.{
  ℕ, List, [], ◌∷◌, Bool, true, false, not, ◌&&◌, Option, none, some, ◌==◌, if◌then◌else◌, Result,
  ok, err,
}
use nano_kvm_usb_rs.Input.Event.{Event}
use nano_kvm_usb_rs.Script.Steps.{Step, send, wait, Label, key_label, type_label, release_label}
use nano_kvm_usb_rs.Script.Layout.{Layout}
use nano_kvm_usb_rs.Script.Compile.{
  Places, off, compensate, CompileError, nothing_to_type, unreachable, compile_type,
}
use nano_kvm_usb_rs.Viewer.Chrome.Shortcut.{transitions}

pub data Refusal : Type 0 where
  not_captured : Refusal
  clipboard : List ℕ → Refusal
  empty : Refusal
  unreachable_text : Layout → Places → Refusal
  caps_lock_on : Refusal
  lock_state_unknown : Refusal
  device_timeout : Refusal
  compile_failed : CompileError → Refusal

-- `\r\n` and a bare `\r` become `\n`.
unfoldable pub normalise : List ℕ → List ℕ
normalise [] = []
normalise (c ∷ []) = (if c == 13 then 10 else c) ∷ []
normalise (c ∷ d ∷ text) =
    let rest = normalise (d ∷ text) in
    let behind = normalise text in
    if c == 13 then if d == 10 then 10 ∷ behind else 10 ∷ rest else c ∷ rest

-- `==` on scripts.
unfoldable pub same_list : List ℕ → List ℕ → Bool
same_list [] [] = true
same_list (a ∷ as') (b ∷ bs) = a == b && same_list as' bs
same_list _ _ = false

unfoldable pub same_label : Label → Label → Bool
unfolding same_list
same_label (key_label s) (key_label t) = same_list s t
same_label (type_label c) (type_label d) = c == d
same_label release_label release_label = true
same_label _ _ = false

unfoldable pub same_step : Step → Step → Bool
unfolding same_label same_list
same_step (send o) (send p) =
    same_label o.label p.label
    && (o.report.modifiers == p.report.modifiers && same_list o.report.keys p.report.keys)
same_step (wait m) (wait n) = m == n
same_step _ _ = false

unfoldable pub same_script : List Step → List Step → Bool
unfolding same_step
same_script [] [] = true
same_script (a ∷ as') (b ∷ bs) = same_step a b && same_script as' bs
same_script _ _ = false

-- The decision behind the two compilations.
abbrev pub decide : Option Bool → Bool → List Step → Result (List Event) Refusal
decide none matters script = if matters then err lock_state_unknown else ok (transitions script)
decide (some true) matters script = if matters then err caps_lock_on else ok (transitions script)
decide (some false) matters script = ok (transitions script)

-- From the second compilation on.
unfoldable pub compare_caps :
    Option Bool → List Step → Result (List Step) CompileError → Result (List Event) Refusal
unfolding same_script
compare_caps caps_lock script (err e) = err (compile_failed e)
compare_caps caps_lock script (ok compensated) =
    decide caps_lock (not (same_script compensated script)) script

abbrev pub refuse : CompileError → Refusal
refuse (unreachable layout places) = unreachable_text layout places
refuse nothing_to_type = empty
refuse e = compile_failed e

-- From the first compilation on.
unfoldable pub compile_text :
    List ℕ → Layout → Option Bool → Result (List Step) CompileError → Result (List Event) Refusal
compile_text text layout caps_lock (err e) = err (refuse e)
compile_text text layout caps_lock (ok script) =
    compare_caps caps_lock script (compile_type text layout compensate)

abbrev pub unless_empty : List ℕ → Result (List Event) Refusal → Result (List Event) Refusal
unless_empty [] r = err empty
unless_empty (c ∷ text) r = r

unfoldable pub compile : List ℕ → Layout → Option Bool → Result (List Event) Refusal
compile text_of_clipboard layout caps_lock =
    let text = normalise text_of_clipboard in
    unless_empty text (compile_text text layout caps_lock (compile_type text layout off))
