-- ===== src/Viewer/Routing/Tracking.antt =====
-- src/viewer/app.rs: what the window records of a button is what the target heard of it.
use nano_kvm_usb_rs.Prelude.{
  ℕ, ◌<◌, List, [], ◌∷◌, Bool, true, false, ◌==◌, if◌then◌else◌, ◌≡◌, ap, ◌∙◌, arith, All,
}
use nano_kvm_usb_rs.Input.Event.{Event}
use nano_kvm_usb_rs.Proto.Report.{HidKey, modifier, usage}
use nano_kvm_usb_rs.Viewer.Session.{
  Session, Trigger, motion, button, Action, forward, release_all, arm_inhibitor, disarm_inhibitor,
  grab_pointer, release_pointer, try_engage, exit, reduce,
}
use nano_kvm_usb_rs.Viewer.Session.Edges.{button_contact, target_after, moves}
use nano_kvm_usb_rs.Viewer.Chrome.Outstanding.{Outstanding, set_key, holds_button, clear}
use nano_kvm_usb_rs.Viewer.Routing.{record_event, perform_all}
use nano_kvm_usb_rs.Viewer.Routing.Masks.{is_mask, holds_button-set_button}

-- The buttons of an event are buttons of the report.
abbrev pub lawful_event : Event → Bool
lawful_event (Event.button n down) = is_mask n
lawful_event _ = true

abbrev pub lawful : Action → Bool
lawful (forward e) = lawful_event e
lawful _ = true

abbrev pub IsLawful : Action → Type 0
IsLawful action = lawful action ≡ true

-- A trigger that carries a button of the report, or none.
abbrev pub lawful_trigger : Trigger → Bool
lawful_trigger (button n down) = is_mask n
lawful_trigger (motion e) = lawful_event e
lawful_trigger _ = true

pub reduce-IsLawful :
    (s : Session) (t : Trigger) → lawful_trigger t ≡ true → All IsLawful (reduce s t).1
unfolding reduce
reduce-IsLawful s (button n down) h = ground arith
reduce-IsLawful s (motion e) h = ground arith
reduce-IsLawful s t h = ground arith

module _ (m : ℕ) where
  -- What is recorded for the button is what the target heard of it.
  pub record Tracked (o : Outstanding) (held : Bool) : Type 0 where
    pub same : holds_button m o ≡ held
    pub byte : o.buttons < 256

  set_key-Tracked :
      (k : HidKey) (down : Bool) (o : Outstanding) (held : Bool)
      → Tracked o held
      → Tracked (set_key k down o) held
  unfolding set_key holds_button
  set_key-Tracked (modifier bit) down o held t = record { same = t.same; byte = t.byte }
  set_key-Tracked (usage u) down o held t = record { same = t.same; byte = t.byte }

module _ (m : ℕ) (m_is_mask : is_mask m ≡ true) where
  record_event-Tracked :
      (e : Event) (o : Outstanding) (held : Bool)
      → lawful_event e ≡ true
      → Tracked m o held
      → Tracked m (record_event e o) (moves (button_contact m) e held)
  record_event-Tracked (Event.button n down) o held h t =
      let (moved, byte) = holds_button-set_button m n down o m_is_mask h t.byte in
      record { same = moved ∙ ap (λ b. if m == n then down else b) t.same; byte = byte }
  record_event-Tracked (Event.key k down) o held h t = set_key-Tracked m k down o held t
  record_event-Tracked e o held h t = t

  clear-Tracked : (o : Outstanding) → Tracked m (clear o) false
  unfolding clear holds_button
  clear-Tracked o = record { same = ground arith; byte = omega arith }

  pub perform_all-Tracked :
      (actions : List Action) (o : Outstanding) (held : Bool)
      → All IsLawful actions
      → Tracked m o held
      → Tracked m (perform_all actions o) (target_after (button_contact m) actions held)
  unfolding perform_all
  perform_all-Tracked [] o held h t = t
  perform_all-Tracked (forward e ∷ actions) o held h t =
      perform_all-Tracked actions (record_event e o) _ h.1 (record_event-Tracked e o held h.0 t)
  perform_all-Tracked (release_all r ∷ actions) o held h t =
      perform_all-Tracked actions (clear o) false h.1 (clear-Tracked o)
  perform_all-Tracked (arm_inhibitor ∷ actions) o held h t =
      perform_all-Tracked actions o held h.1 t
  perform_all-Tracked (disarm_inhibitor ∷ actions) o held h t =
      perform_all-Tracked actions o held h.1 t
  perform_all-Tracked (grab_pointer ∷ actions) o held h t = perform_all-Tracked actions o held h.1 t
  perform_all-Tracked (release_pointer ∷ actions) o held h t =
      perform_all-Tracked actions o held h.1 t
  perform_all-Tracked (try_engage ∷ actions) o held h t = perform_all-Tracked actions o held h.1 t
  perform_all-Tracked (exit ∷ actions) o held h t = perform_all-Tracked actions o held h.1 t
