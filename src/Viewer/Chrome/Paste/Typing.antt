-- ===== src/Viewer/Chrome/Paste/Typing.antt =====
-- What a paste types on the target: src/viewer/chrome/paste.rs, with src/viewer/chrome/shortcut.rs,
-- src/script/compile.rs and src/input/held.rs.
use nano_kvm_usb_rs.Prelude.{
  ℕ, List, [], ◌∷◌, map, Bool, true, false, not, Option, none, some, Result, ok, err, ◌≡◌, refl, ap,
  ◌∙◌, subst,
}
use nano_kvm_usb_rs.Input.Event.{Event}
use nano_kvm_usb_rs.Input.Held.{
  HeldState, apply_key, press_usage, release_usage, report, reported_usages, reported_count, holds,
  remove, fill,
}
use nano_kvm_usb_rs.Input.Held
use nano_kvm_usb_rs.Script.Steps.{Step}
use nano_kvm_usb_rs.Script.Layout.{us}
use nano_kvm_usb_rs.Script.Target.{typed, no_keys}
use nano_kvm_usb_rs.Script.Compile.{off, compensate, CompileError, compile_type}
use nano_kvm_usb_rs.Script.Compile.Typing.{compile_type-IsTyped}
use nano_kvm_usb_rs.Viewer.Chrome.Shortcut.{transitions}
use nano_kvm_usb_rs.Viewer.Chrome.Paste.{
  Refusal, compile, compile_text, compare_caps, decide, normalise, same_script, unless_empty,
}
use nano_kvm_usb_rs.Viewer.Chrome.Paste.Same.{same_script-eq}
use nano_kvm_usb_rs.Viewer.Chrome.Paste.Sent.{sent, IsTyped-transitions}
use nano_kvm_usb_rs.Viewer.Chrome.Paste.Newlines.{with_newlines, normalise-with_newlines}

-- The lock state that the viewer knew, if it knew one, is the target's.
abbrev pub Knows : Option Bool → Bool → Type 0
Knows none lock = Unit
Knows (some known) lock = known ≡ lock

matches_compensate :
    (text : List ℕ) {script : List Step}
    → compile_type text us compensate ≡ ok script
    → typed true no_keys (sent Held.new (transitions script)) ≡ map (λ c. some c) text
matches_compensate text {script} h =
    IsTyped-transitions true text script (compile_type-IsTyped true compensate text tt h)

matches_off :
    (text : List ℕ) {script : List Step}
    → compile_type text us off ≡ ok script
    → typed false no_keys (sent Held.new (transitions script)) ≡ map (λ c. some c) text
matches_off text {script} h =
    IsTyped-transitions false text script (compile_type-IsTyped false off text tt h)

-- Where the two compilations agree, CapsLock does not matter.
either_lock :
    (lock : Bool) (text : List ℕ) {script compensated : List Step}
    → compile_type text us off ≡ ok script
    → compile_type text us compensate ≡ ok compensated
    → same_script compensated script ≡ true
    → typed lock no_keys (sent Held.new (transitions script)) ≡ map (λ c. some c) text
either_lock false text h k e = matches_off text h
either_lock true text {script} {compensated} h k e =
    subst (λ s. typed true no_keys (sent Held.new (transitions s)) ≡ map (λ c. some c) text)
      (same_script-eq compensated script e) (matches_compensate text k)

decided :
    (caps_lock : Option Bool) (lock : Bool) (text : List ℕ) (same : Bool)
    {script compensated : List Step} {es : List Event}
    → Knows caps_lock lock
    → compile_type text us off ≡ ok script
    → compile_type text us compensate ≡ ok compensated
    → same_script compensated script ≡ same
    → decide caps_lock (not same) script ≡ ok es
    → typed lock no_keys (sent Held.new es) ≡ map (λ c. some c) text
decided (some true) lock text false known h k e d = cc
decided none lock text false known h k e d = cc
decided (some true) lock text true {script} {compensated} {es} known h k e d =
    let s : transitions script ≡ es = cc in
    subst (λ es. typed lock no_keys (sent Held.new es) ≡ map (λ c. some c) text) s
      (either_lock lock text h k e)
decided none lock text true {script} {compensated} {es} known h k e d =
    let s : transitions script ≡ es = cc in
    subst (λ es. typed lock no_keys (sent Held.new es) ≡ map (λ c. some c) text) s
      (either_lock lock text h k e)
decided (some false) true text same known h k e d = cc
decided (some false) false text same {script} {compensated} {es} known h k e d =
    let s : transitions script ≡ es = cc in
    subst (λ es. typed false no_keys (sent Held.new es) ≡ map (λ c. some c) text) s
      (matches_off text h)

compared :
    (caps_lock : Option Bool) (lock : Bool) (text : List ℕ)
    (second : Result (List Step) CompileError) {script : List Step} {es : List Event}
    → Knows caps_lock lock
    → compile_type text us off ≡ ok script
    → compile_type text us compensate ≡ second
    → compare_caps caps_lock script second ≡ ok es
    → typed lock no_keys (sent Held.new es) ≡ map (λ c. some c) text
unfolding compare_caps
compared caps_lock lock text (ok compensated) {script} known h k d =
    decided caps_lock lock text (same_script compensated script) known h k refl d
compared caps_lock lock text (err e) known h k d = cc

compiled :
    (caps_lock : Option Bool) (lock : Bool) (text : List ℕ)
    (first : Result (List Step) CompileError) {es : List Event}
    → Knows caps_lock lock
    → compile_type text us off ≡ first
    → compile_text text us caps_lock first ≡ ok es
    → typed lock no_keys (sent Held.new es) ≡ map (λ c. some c) text
unfolding compile_text
compiled caps_lock lock text (ok script) known h d =
    compared caps_lock lock text (compile_type text us compensate) known h refl d
compiled caps_lock lock text (err e) known h d = cc

pub accepted :
    (text : List ℕ) (r : Result (List Event) Refusal) {es : List Event}
    → unless_empty text r ≡ ok es
    → r ≡ ok es
accepted [] r d = cc
accepted (c ∷ text) r d = d

-- A paste that is accepted types the text of the clipboard, each `\r\n` and each other `\r` made a
-- `\n`, and nothing else: the target reads the reports that the writer sends for the transitions, from a keyboard with
-- nothing held. When the viewer knew whether CapsLock is on it has to have known it rightly; when it
-- did not, the text is the same with CapsLock on and off.
pub compile-types :
    (caps_lock : Option Bool) (lock : Bool) (clipboard : List ℕ) {es : List Event}
    → Knows caps_lock lock
    → compile clipboard us caps_lock ≡ ok es
    → typed lock no_keys (sent Held.new es) ≡ map (λ c. some c) (with_newlines false clipboard)
unfolding compile
compile-types caps_lock lock clipboard known d =
    let text = normalise clipboard in
    let first = compile_type text us off in
    compiled caps_lock lock text first known refl
      (accepted text (compile_text text us caps_lock first) d)
    ∙ ap (map (λ c. some c)) (normalise-with_newlines clipboard)
