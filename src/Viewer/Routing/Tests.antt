-- ===== src/Viewer/Routing/Tests.antt =====
-- Witnesses of the routing.
use nano_kvm_usb_rs.Prelude.{List, [], ◌∷◌, true, false, some, ◌≡◌, refl}
use nano_kvm_usb_rs.Proto.Keymap.{key_a, pause, hid_key}
use nano_kvm_usb_rs.Viewer.Session.{captured, released, engage_succeeded, reduce}
use nano_kvm_usb_rs.Viewer.Session.Edges.{button_contact, target_after}
use nano_kvm_usb_rs.Viewer.Chrome.Outstanding.{nothing, set_key, set_button, holds_button}
use nano_kvm_usb_rs.Viewer.Chrome.Route.{RouteInputs, absolute, left, map_button}
use nano_kvm_usb_rs.Viewer.Routing.{
  App, new_app, HostEvent, clicked, typed, fed, run, keyboard_input,
}
use nano_kvm_usb_rs.Viewer.Routing.Owed.{run_lets_go}
use nano_kvm_usb_rs.Viewer.Routing.Escape.{IsOut, pause_leaves}

abbrev free : RouteInputs
free = record {
  capture = released;
  pointer = absolute;
  popover_open = false;
  modal_open = false;
  pointer_over_chrome = false;
  paste_running = false;
  pointer_locked = false;
  outstanding = nothing;
  paste_held = nothing;
}

abbrev in_popover : RouteInputs
in_popover = record free { popover_open = true; pointer_over_chrome = true }

-- The click that captures, and a press whose release falls on a popover.
abbrev clicks : List HostEvent
clicks =
    clicked free left true
    ∷ fed engage_succeeded
    ∷ clicked free left false
    ∷ clicked free left true
    ∷ typed free (some key_a) true false false
    ∷ []

abbrev released_late : List HostEvent
released_late =
    clicked free left true
    ∷ fed engage_succeeded
    ∷ clicked free left false
    ∷ clicked free left true
    ∷ clicked in_popover left false
    ∷ []

run_lets_go_example :
    (target_after (button_contact 1) (run released_late new_app).1 false ≡ false)
    × (holds_button 1 (run released_late new_app).0.outstanding ≡ false)
unfolding map_button
run_lets_go_example = run_lets_go 1 refl released_late (tt, (tt, (tt, (tt, (tt, tt))))) refl

-- Before that release the button is held.
clicks_hold : holds_button 1 (run clicks new_app).0.outstanding ≡ true
unfolding run holds_button hid_key map_button reduce set_key set_button
clicks_hold = refl

abbrev pasting : RouteInputs
pasting = record in_popover { paste_running = true }

abbrev capturing : App
capturing = record {
  session = record new_app.session { capture = captured };
  outstanding = set_button 1 true nothing;
}

pause_leaves_example : IsOut (keyboard_input pasting (some pause) true false true capturing)
pause_leaves_example = pause_leaves pasting true capturing (λ e. refl) refl (λ e. cc)
