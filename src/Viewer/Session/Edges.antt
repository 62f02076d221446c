-- ===== src/Viewer/Session/Edges.antt =====
-- No key or button stays held on the target after it is let go: src/viewer/state.rs.
use nano_kvm_usb_rs.Prelude.{
  ℕ, List, [], ◌∷◌, ◌++◌, Bool, true, false, ◌&&◌, ◌==◌, if◌then◌else◌, arith, ◌≡◌, refl, All,
  subst, sym,
}
use nano_kvm_usb_rs.Proto.Report.{HidKey, modifier, usage}
use nano_kvm_usb_rs.Input.Event.{Event}
use nano_kvm_usb_rs.Viewer.Session.{
  Session, captured, Trigger, key, button, motion, Action, forward, release_all, arm_inhibitor,
  disarm_inhibitor, grab_pointer, release_pointer, try_engage, exit, reduce, new, is_enter,
}
use nano_kvm_usb_rs.Viewer.Session.Safety.{run}

-- A key or a button of the report.
pub data Contact : Type 0 where
  key_contact : HidKey → Contact
  button_contact : ℕ → Contact

abbrev key_eq : HidKey → HidKey → Bool
key_eq (modifier a) (modifier b) = a == b
key_eq (usage a) (usage b) = a == b
key_eq _ _ = false

-- The position of the contact after an event, from the one before.
abbrev pub moves : Contact → Event → Bool → Bool
moves (key_contact k) (Event.key j down) old = if key_eq k j then down else old
moves (button_contact m) (Event.button n down) old = if m == n then down else old
moves _ _ old = old

-- On the target: what is forwarded moves the contact, and a release-all lets it go.
abbrev pub target_after : Contact → List Action → Bool → Bool
target_after c [] held = held
target_after c (forward e ∷ rest) held = target_after c rest (moves c e held)
target_after c (release_all r ∷ rest) held = target_after c rest false
target_after c (_ ∷ rest) held = target_after c rest held

-- On the user's desk.
abbrev pub desk_after : Contact → Trigger → Bool → Bool
desk_after c (key k down) held = moves c (Event.key k down) held
desk_after c (button m down) held = moves c (Event.button m down) held
desk_after c _ held = held

-- `Trigger::Motion` carries pointer and wheel motion only.
abbrev pub IsWellFormed : Trigger → Type 0
IsWellFormed (motion (Event.key k down)) = ⊥
IsWellFormed (motion (Event.button m down)) = ⊥
IsWellFormed _ = Unit

-- Whether the session will eat the contact's next release.
abbrev eaten : Contact → Session → Bool
eaten (key_contact k) s = is_enter k && s.consumed_enter
eaten (button_contact m) s = m == 1 && s.consumed_left

pub record Holds (c : Contact) (s : Session) (target desk : Bool) : Type 0 where
  pub pressed : target ≡ true → desk ≡ true
  pub only_captured : target ≡ true → s.capture ≡ captured
  pub owed : target ≡ true → eaten c s ≡ false
  pub closed : target ≡ true → s.closing ≡ false

key_eq-is_enter : (k j : HidKey) → key_eq k j ≡ true → is_enter k ≡ is_enter j
unfolding is_enter
key_eq-is_enter (modifier a) (modifier b) h = refl
key_eq-is_enter (usage a) (usage b) h = ground arith
key_eq-is_enter (modifier a) (usage b) h = ground arith
key_eq-is_enter (usage a) (modifier b) h = ground arith

pub reduce-Holds :
    (c : Contact) (s : Session) (t : Trigger) (target desk : Bool)
    → IsWellFormed t
    → Holds c s target desk
    → Holds c (reduce s t).0 (target_after c (reduce s t).1 target) (desk_after c t desk)
unfolding reduce
reduce-Holds (button_contact m) s (button n down) target desk w h = ground arith
reduce-Holds (button_contact m) s (key k down) target desk w h = ground arith
reduce-Holds (key_contact j) s (button n down) target desk w h = ground arith
reduce-Holds (key_contact j) s (key k down) target desk w h = ground (arith, key_eq-is_enter j k)
reduce-Holds c s (motion (Event.key k down)) target desk w h = elim w [ ]
reduce-Holds c s (motion (Event.button k down)) target desk w h = elim w [ ]
reduce-Holds c s t target desk w h = ground arith

pub target_after-append :
    (c : Contact) (xs ys : List Action) (held : Bool)
    → target_after c (xs ++ ys) held ≡ target_after c ys (target_after c xs held)
target_after-append c [] ys held = refl
target_after-append c (forward e ∷ xs) ys held = target_after-append c xs ys (moves c e held)
target_after-append c (release_all r ∷ xs) ys held = target_after-append c xs ys false
target_after-append c (arm_inhibitor ∷ xs) ys held = target_after-append c xs ys held
target_after-append c (disarm_inhibitor ∷ xs) ys held = target_after-append c xs ys held
target_after-append c (grab_pointer ∷ xs) ys held = target_after-append c xs ys held
target_after-append c (release_pointer ∷ xs) ys held = target_after-append c xs ys held
target_after-append c (try_engage ∷ xs) ys held = target_after-append c xs ys held
target_after-append c (exit ∷ xs) ys held = target_after-append c xs ys held

abbrev pub desk_over : Contact → List Trigger → Bool → Bool
desk_over c [] held = held
desk_over c (t ∷ ts) held = desk_over c ts (desk_after c t held)

run-Holds :
    (c : Contact) (s : Session) (ts : List Trigger) (target desk : Bool)
    → All IsWellFormed ts
    → Holds c s target desk
    → Holds c (run s ts).0 (target_after c (run s ts).1 target) (desk_over c ts desk)
unfolding run
run-Holds c s [] target desk w h = h
run-Holds c s (t ∷ ts) target desk w h =
    let later =
      run-Holds c (reduce s t).0 ts (target_after c (reduce s t).1 target) (desk_after c t desk) w.1
        (reduce-Holds c s t target desk w.0 h) in
    subst (λ b. Holds c (run (reduce s t).0 ts).0 b (desk_over c ts (desk_after c t desk)))
      (sym (target_after-append c (reduce s t).1 (run (reduce s t).0 ts).1 target)) later

-- A key or button that the user has let go is let go on the target: whatever triggers a new session
-- has seen, motion triggers carrying no key and no button, the forwarded edges and the release-alls
-- leave it pressed on the target only while it is pressed on the desk.
pub run_leaves_no_contact :
    (c : Contact) (ts : List Trigger)
    → All IsWellFormed ts
    → desk_over c ts false ≡ false
    → target_after c (run new ts).1 false ≡ false
run_leaves_no_contact c ts w up =
    let start : Holds c new false false = record {
      pressed = λ e. e;
      only_captured = λ e. ground arith;
      owed = λ e. ground arith;
      closed = λ e. ground arith;
    } in
    let h = run-Holds c new ts false false w start in ground (arith, h.pressed)
