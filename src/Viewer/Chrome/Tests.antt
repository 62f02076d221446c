-- ===== src/Viewer/Chrome/Tests.antt =====
-- Witnesses of the chrome.
use nano_kvm_usb_rs.Prelude.{
  length, ◌++◌, arith, ℕ, List, [], ◌∷◌, true, false, none, some, ok, err, ◌≡◌, refl,
}
use nano_kvm_usb_rs.Proto.Report.{usage, modifier}
use nano_kvm_usb_rs.Input.Event.{Event}
use nano_kvm_usb_rs.Input.Held
use nano_kvm_usb_rs.Script.Layout.{us, key_for_char}
use nano_kvm_usb_rs.Script.Compile.{
  find_unreachable, type_chars, push_char, usage_of, compile_type, compile_key,
}
use nano_kvm_usb_rs.Script.Steps.{tap}
use nano_kvm_usb_rs.Script.Target.{typed, no_keys}
use nano_kvm_usb_rs.Viewer.Chrome.Shortcut.{ctrl_alt_del, events, chord, transitions}
use nano_kvm_usb_rs.Viewer.Chrome.Paste.{
  compile, compile_text, compare_caps, caps_lock_on, lock_state_unknown, normalise,
}
use nano_kvm_usb_rs.Viewer.Chrome.Paste.Sent.{sent}
use nano_kvm_usb_rs.Viewer.Chrome.Paste.Typing.{compile-types}
use nano_kvm_usb_rs.Viewer.Chrome.Paste.Newlines.{with_newlines}
use nano_kvm_usb_rs.Viewer.Chrome.Outstanding.{
  Outstanding, nothing, held_keys, held_buttons, set_key,
}
use nano_kvm_usb_rs.Viewer.Chrome.Job.{done, ending_cancelled, new, releases}
use nano_kvm_usb_rs.Viewer.Chrome.Job.Progress.{Call, delivery, ending}
use nano_kvm_usb_rs.Viewer.Chrome.Job.Pasted.{paste-types}
use nano_kvm_usb_rs.Viewer.Chrome.Job.Playing.{new-IsPlayed}
use nano_kvm_usb_rs.Viewer.Chrome.Job.Turns.{play}

ctrl_alt_del_events :
    events ctrl_alt_del
    ≡ ok (
        Event.key (modifier 1) true
        ∷ Event.key (modifier 4) true
        ∷ Event.key (usage 0x4c) true
        ∷ Event.key (usage 0x4c) false
        ∷ Event.key (modifier 1) false
        ∷ Event.key (modifier 4) false
        ∷ [])
unfolding events compile_key chord tap transitions
ctrl_alt_del_events = refl

abbrev one_line : List ℕ
one_line = b'1' ∷ 13 ∷ 10 ∷ []

abbrev one_line_events : List Event
one_line_events =
    Event.key (usage 0x1e) true
    ∷ Event.key (usage 0x1e) false
    ∷ Event.key (usage 0x28) true
    ∷ Event.key (usage 0x28) false
    ∷ []

one_line_compiles : compile one_line us none ≡ ok one_line_events
unfolding compile normalise compile_text compile_type find_unreachable key_for_char type_chars
    push_char usage_of compare_caps transitions
one_line_compiles = refl

letter_refused : compile (b'a' ∷ []) us (some true) ≡ err caps_lock_on
unfolding compile normalise compile_text compile_type find_unreachable key_for_char type_chars
    push_char usage_of compare_caps transitions
letter_refused = refl

letter_unknown : compile (b'a' ∷ []) us none ≡ err lock_state_unknown
unfolding compile normalise compile_text compile_type find_unreachable key_for_char type_chars
    push_char usage_of compare_caps transitions
letter_unknown = refl

compile-types_example :
    typed true no_keys (sent Held.new one_line_events) ≡ some b'1' ∷ some 10 ∷ []
unfolding with_newlines
compile-types_example = compile-types none true one_line tt one_line_compiles

-- Both halves of a chord and a button, held across two words.
abbrev dragging : Outstanding
dragging =
    record (set_key (usage 4) true
      (set_key (usage 0x48) true (set_key (modifier 2) true nothing))) { buttons = 1 }

dragging-releases :
    releases dragging
    ≡ Event.key (usage 4) false
      ∷ Event.key (usage 0x48) false
      ∷ Event.key (modifier 2) false
      ∷ Event.button 1 false
      ∷ []
unfolding releases held_keys held_buttons set_key
dragging-releases = refl

abbrev cut_short : List Call
cut_short = delivery 7 ∷ ending ending_cancelled ∷ delivery 9 ∷ []

new-IsPlayed_example :
    ((play (length (releases dragging ++ one_line_events)) 7 (new dragging one_line_events 40)).0
      ≡ releases dragging ++ one_line_events)
    × ((play
          (length (releases dragging ++ one_line_events))
          7
          (new dragging one_line_events 40)).1.outcome
        ≡ some (done (length (releases dragging ++ one_line_events))))
new-IsPlayed_example =
    new-IsPlayed dragging one_line_events 40 7 (tt, (tt, (tt, (tt, tt)))) (omega arith)

paste-types_example :
    typed true no_keys (sent Held.new (play 4 7 (new nothing one_line_events 40)).0)
    ≡ some b'1' ∷ some 10 ∷ []
unfolding with_newlines
paste-types_example = paste-types none true one_line 40 7 tt one_line_compiles
