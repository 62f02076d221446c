-- ===== src/Viewer/Tests.antt =====
-- Witnesses for the capture session.
use nano_kvm_usb_rs.Prelude.{List, [], ◌∷◌, true, false, ◌≡◌, refl}
use nano_kvm_usb_rs.Proto.Report.{usage}
use nano_kvm_usb_rs.Viewer.Session.{
  Session, released, engaging, captured, Trigger, key, focus_lost, engage_succeeded,
  close_requested, reduce, new,
}
use nano_kvm_usb_rs.Viewer.Session.Safety.{
  forwards, releases, reduce-forwards, reduce-captures, reduce_leaves, run, run-closing,
}
use nano_kvm_usb_rs.Viewer.Session.Edges.{key_contact, target_after, run_leaves_no_contact}

abbrev in_capture : Session
in_capture = record new { capture = captured; consumed_left = true }

abbrev in_engaging : Session
in_engaging = record new { capture = engaging; consumed_enter = true }

reduce-forwards_example :
    (in_capture.capture ≡ captured)
    × (in_capture.closing ≡ false)
    × ((reduce in_capture (key (usage 4) true)).0.capture ≡ captured)
unfolding reduce
reduce-forwards_example = reduce-forwards in_capture (key (usage 4) true) refl

reduce-captures_example :
    (engage_succeeded ≡ engage_succeeded)
    × (in_engaging.capture ≡ engaging)
    × (in_engaging.closing ≡ false)
unfolding reduce
reduce-captures_example = reduce-captures in_engaging engage_succeeded (λ e. cc) refl

reduce_leaves_example :
    (releases (reduce in_capture focus_lost).1 ≡ true)
    × ((reduce in_capture focus_lost).0.consumed_left ≡ false)
    × ((reduce in_capture focus_lost).0.consumed_enter ≡ false)
unfolding reduce
reduce_leaves_example = reduce_leaves in_capture focus_lost (λ e. cc) refl

abbrev late_input : List Trigger
late_input = key (usage 4) true ∷ focus_lost ∷ close_requested ∷ []

run-closing_example :
    let closed = (reduce in_capture close_requested).0 in
    let r = run in_capture (close_requested ∷ late_input) in
    (r.0.closing ≡ true)
    × (r.0.capture ≡ released)
    × (forwards r.1 ≡ false)
    × (releases r.1 ≡ true)
    × (r.0 ≡ closed)
    × (releases (run closed late_input).1 ≡ false)
run-closing_example = run-closing in_capture late_input refl

-- A capture by Enter, a key pressed and then released behind the end of the capture.
abbrev a_session : List Trigger
a_session =
    key (usage 0x28) true
    ∷ engage_succeeded
    ∷ key (usage 0x28) false
    ∷ key (usage 4) true
    ∷ focus_lost
    ∷ key (usage 4) false
    ∷ []

run_leaves_no_contact_example :
    target_after (key_contact (usage 4)) (run new a_session).1 false ≡ false
run_leaves_no_contact_example =
    run_leaves_no_contact (key_contact (usage 4)) a_session (tt, (tt, (tt, (tt, (tt, (tt, tt))))))
      refl

-- Until the focus is lost the key is held on the target.
a_session_holds :
    target_after
      (key_contact (usage 4))
      (run new (key (usage 0x28) true ∷ engage_succeeded ∷ key (usage 4) true ∷ [])).1
      false
    ≡ true
unfolding run reduce
a_session_holds = refl
