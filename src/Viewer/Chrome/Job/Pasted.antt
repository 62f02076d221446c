-- ===== src/Viewer/Chrome/Job/Pasted.antt =====
-- src/viewer/chrome/paste.rs: a compiled paste that its job plays.
use nano_kvm_usb_rs.Prelude.{
  ℕ, List, [], ◌∷◌, ◌++◌, map, Bool, true, false, not, Option, none, some, Result, ok, err, length,
  ◌≡◌, refl, ap, ◌∙◌, subst, arith, All, All-append, bit_and, ◌-◌,
}
use nano_kvm_usb_rs.Proto.Report.{KeyboardReport, keyboard_release_all}
use nano_kvm_usb_rs.Input.Event.{Event}
use nano_kvm_usb_rs.Input.Held
use nano_kvm_usb_rs.Script.Steps.{Step, send, wait}
use nano_kvm_usb_rs.Script.Layout.{us}
use nano_kvm_usb_rs.Script.Target.{typed, no_keys}
use nano_kvm_usb_rs.Script.Compile.{off, compensate, CompileError, compile_type}
use nano_kvm_usb_rs.Viewer.Chrome.Shortcut.{
  differences, transitions, transitions_from, usages_without, usage_events, modifier_events,
  modifier_bits,
}
use nano_kvm_usb_rs.Viewer.Chrome.Outstanding.{nothing, held_keys, held_buttons}
use nano_kvm_usb_rs.Viewer.Chrome.Paste.{
  Refusal, compile, compile_text, compare_caps, decide, normalise, same_script,
}
use nano_kvm_usb_rs.Viewer.Chrome.Paste.Sent.{sent}
use nano_kvm_usb_rs.Viewer.Chrome.Paste.Newlines.{with_newlines}
use nano_kvm_usb_rs.Viewer.Chrome.Paste.Typing.{Knows, compile-types, accepted}
use nano_kvm_usb_rs.Viewer.Chrome.Job.{new, releases}
use nano_kvm_usb_rs.Viewer.Chrome.Job.Playing.{new-IsPlayed}
use nano_kvm_usb_rs.Viewer.Chrome.Job.Turns.{play, IsPlayable}

usage_events-ArePlayable :
    (down : Bool) (usages : List ℕ) → All IsPlayable (usage_events down usages)
usage_events-ArePlayable down [] = tt
usage_events-ArePlayable down (u ∷ usages) = (tt, usage_events-ArePlayable down usages)

modifier_events-ArePlayable :
    (down : Bool) (bits : List ℕ) → All IsPlayable (modifier_events down bits)
modifier_events-ArePlayable down [] = tt
modifier_events-ArePlayable down (b ∷ bits) = (tt, modifier_events-ArePlayable down bits)

differences-ArePlayable : (held next : KeyboardReport) → All IsPlayable (differences held next)
unfolding differences
differences-ArePlayable held next =
    let a = usages_without next.keys held.keys in
    let b = modifier_bits (bit_and held.modifiers (255 - next.modifiers)) in
    let c = modifier_bits (bit_and next.modifiers (255 - held.modifiers)) in
    let d = usages_without held.keys next.keys in
    let cs = modifier_events true c in
    let ds = usage_events true d in
    let bs = modifier_events false b in
    All-append IsPlayable (usage_events false a) (bs ++ (cs ++ ds))
      (usage_events-ArePlayable false a)
      (All-append IsPlayable bs (cs ++ ds) (modifier_events-ArePlayable false b) (
        All-append IsPlayable cs ds (modifier_events-ArePlayable true c)
          (usage_events-ArePlayable true d)))

transitions_from-ArePlayable :
    (held : KeyboardReport) (steps : List Step) → All IsPlayable (transitions_from held steps)
unfolding transitions_from
transitions_from-ArePlayable held [] = tt
transitions_from-ArePlayable held (wait ms ∷ steps) = transitions_from-ArePlayable held steps
transitions_from-ArePlayable held (send o ∷ steps) =
    All-append IsPlayable (differences held o.report) (transitions_from o.report steps)
      (differences-ArePlayable held o.report) (transitions_from-ArePlayable o.report steps)

transitions-ArePlayable : (script : List Step) → All IsPlayable (transitions script)
unfolding transitions
transitions-ArePlayable script = transitions_from-ArePlayable keyboard_release_all script

refused :
    {e : Refusal} {es : List Event} → ◌≡◌ {A = Result (List Event) Refusal} (err e) (ok es) → ⊥
refused h = cc

made :
    (script : List Step) {es : List Event}
    → ◌≡◌ {A = Result (List Event) Refusal} (ok (transitions script)) (ok es)
    → All IsPlayable es
made script {es} h =
    let e : transitions script ≡ es = cc in
    subst (All IsPlayable) e (transitions-ArePlayable script)

decide-ArePlayable :
    (caps_lock : Option Bool) (matters : Bool) (script : List Step) {es : List Event}
    → decide caps_lock matters script ≡ ok es
    → All IsPlayable es
decide-ArePlayable none true script d = absurd (refused d)
decide-ArePlayable none false script d = made script d
decide-ArePlayable (some true) true script d = absurd (refused d)
decide-ArePlayable (some true) false script d = made script d
decide-ArePlayable (some false) matters script d = made script d

compared-ArePlayable :
    (caps_lock : Option Bool) (script : List Step) (second : Result (List Step) CompileError)
    {es : List Event}
    → compare_caps caps_lock script second ≡ ok es
    → All IsPlayable es
unfolding compare_caps
compared-ArePlayable caps_lock script (ok compensated) d =
    decide-ArePlayable caps_lock (not (same_script compensated script)) script d
compared-ArePlayable caps_lock script (err e) d = absurd (refused d)

compiled-ArePlayable :
    (caps_lock : Option Bool) (text : List ℕ) (first : Result (List Step) CompileError)
    {es : List Event}
    → compile_text text us caps_lock first ≡ ok es
    → All IsPlayable es
unfolding compile_text
compiled-ArePlayable caps_lock text (ok script) d =
    compared-ArePlayable caps_lock script (compile_type text us compensate) d
compiled-ArePlayable caps_lock text (err e) d = absurd (refused d)

compile-ArePlayable :
    (caps_lock : Option Bool) (clipboard : List ℕ) {es : List Event}
    → compile clipboard us caps_lock ≡ ok es
    → All IsPlayable es
unfolding compile
compile-ArePlayable caps_lock clipboard d =
    let text = normalise clipboard in
    let first = compile_type text us off in
    compiled-ArePlayable caps_lock text first
      (accepted text (compile_text text us caps_lock first) d)

nothing_to_release : releases nothing ≡ []
unfolding releases held_keys held_buttons
nothing_to_release = refl

played_whole :
    (es : List Event) (pace now : ℕ)
    → All IsPlayable es
    → (play (length es) now (new nothing es pace)).0 ≡ es
unfolding play
played_whole [] pace now a = refl
played_whole (e ∷ es) pace now a =
    subst
      (λ first.
        (play (length (first ++ (e ∷ es))) now (new nothing (e ∷ es) pace)).0 ≡ first ++ (e ∷ es))
      nothing_to_release (new-IsPlayed nothing (e ∷ es) pace now a (omega arith)).0

-- A paste from the clipboard to the target: when nothing is held and the text is accepted, the job made of it hands
-- out steps that, accepted and sent by the writer, type the text of the clipboard, each `\r\n` and each
-- other `\r` made a `\n`, and nothing else. What the viewer knew of CapsLock, if it knew it, is
-- what the target has.
pub paste-types :
    (caps_lock : Option Bool) (lock : Bool) (clipboard : List ℕ) (pace now : ℕ) {es : List Event}
    → Knows caps_lock lock
    → compile clipboard us caps_lock ≡ ok es
    → typed lock no_keys (sent Held.new (play (length es) now (new nothing es pace)).0)
      ≡ map (λ c. some c) (with_newlines false clipboard)
paste-types caps_lock lock clipboard pace now {es} known d =
    ap (λ out. typed lock no_keys (sent Held.new out))
      (played_whole es pace now (compile-ArePlayable caps_lock clipboard d))
    ∙ compile-types caps_lock lock clipboard known d
