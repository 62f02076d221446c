-- ===== src/Viewer/Routing/Owed.antt =====
-- src/viewer/app.rs and src/viewer/chrome/route.rs: a button's release reaches the target that holds the button.
use nano_kvm_usb_rs.Prelude.{
  ℕ, List, [], ◌∷◌, Bool, true, false, ◌==◌, ==→eq, if◌then◌else◌, ◌≡◌, refl, sym, ◌∙◌, subst,
  arith, by_test, All,
}
use nano_kvm_usb_rs.Input.Event.{Event}
use nano_kvm_usb_rs.Viewer.Session.{Trigger, motion, button, Action, reduce}
use nano_kvm_usb_rs.Viewer.Session.Edges.{
  button_contact, Holds, reduce-Holds, target_after, target_after-append, desk_after, IsWellFormed,
}
use nano_kvm_usb_rs.Viewer.Chrome.Outstanding.{holds_button}
use nano_kvm_usb_rs.Viewer.Chrome.Route.{
  Sink, target, chrome, dropped, RouteInputs, KeyAction, route_pointer, PointerKind, MouseButton,
  left, right, middle, back, forward_button, other, map_button,
}
use nano_kvm_usb_rs.Viewer.Routing.{
  App, new_app, route_inputs, feed, mask_of, click, press, HostEvent, clicked, typed, fed,
  window_event, run,
}
use nano_kvm_usb_rs.Viewer.Routing.Masks.{is_mask}
use nano_kvm_usb_rs.Viewer.Routing.Tracking.{
  lawful_trigger, reduce-IsLawful, Tracked, perform_all-Tracked,
}

still_down :
    (b down desk : Bool)
    → (b ≡ true → down ≡ false → ⊥)
    → desk ≡ true
    → (if b then down else desk) ≡ true
still_down true true desk never h = refl
still_down true false desk never h = absurd (never refl refl)
still_down false down desk never h = h

is_mask_nonzero : (n : ℕ) → is_mask n ≡ true → (n == 0) ≡ false
is_mask_nonzero n h = ground arith

map_button-is_mask :
    (b : MouseButton)
    → (mask_of (map_button b) == 0) ≡ false
    → is_mask (mask_of (map_button b)) ≡ true
unfolding map_button
map_button-is_mask left h = refl
map_button-is_mask right h = refl
map_button-is_mask middle h = refl
map_button-is_mask back h = refl
map_button-is_mask forward_button h = refl
map_button-is_mask (other n) h = ground arith

-- `Trigger::Motion` carries motion only, and a button comes by a click.
abbrev pub IsHostEvent : HostEvent → Type 0
IsHostEvent (fed (button n down)) = ⊥
IsHostEvent (fed t) = IsWellFormed t
IsHostEvent _ = Unit

module _ (m : ℕ) (m_is_mask : is_mask m ≡ true) where
  -- The window between two events, where the button is held on the target and on the desk.
  abbrev Sound : App → Bool → Bool → Type 0
  Sound app held desk =
      Tracked m app.outstanding held × Holds (button_contact m) app.session held desk

  -- The same behind an event that led to some actions.
  abbrev SoundBehind : App × List Action → Bool → Bool → Type 0
  SoundBehind next held desk = Sound next.0 (target_after (button_contact m) next.1 held) desk

  feed-Sound :
      (t : Trigger) (app : App) (held desk : Bool)
      → lawful_trigger t ≡ true
      → IsWellFormed t
      → Sound app held desk
      → SoundBehind (feed t app) held (desk_after (button_contact m) t desk)
  unfolding feed
  feed-Sound t app held desk lawful w (tracked, holds) = (
    perform_all-Tracked m m_is_mask (reduce app.session t).1 app.outstanding held
        (reduce-IsLawful app.session t lawful) tracked,
    reduce-Holds (button_contact m) app.session t held desk w holds,
  )

  -- An event that goes elsewhere, other than the release of a button that is held.
  elsewhere :
      (app : App) (held desk desk' : Bool)
      → (held ≡ true → desk' ≡ true)
      → Sound app held desk
      → Sound app held desk'
  elsewhere app held desk desk' p (tracked, holds) = (
    tracked,
    record {
      pressed = p;
      only_captured = holds.only_captured;
      owed = holds.owed;
      closed = holds.closed;
    },
  )

  -- On the user's desk.
  abbrev pub desk_event : HostEvent → Bool → Bool
  desk_event (clicked window b down) desk = if m == mask_of (map_button b) then down else desk
  desk_event _ desk = desk

  abbrev pub desk_over : List HostEvent → Bool → Bool
  desk_over [] desk = desk
  desk_over (event ∷ events) desk = desk_over events (desk_event event desk)

  -- The rule gives the release of a held button to the target.
  owed_to_target :
      (i : RouteInputs) (n : ℕ)
      → holds_button n i.outstanding ≡ true
      → route_pointer i (PointerKind.button n false) ≡ target
  unfolding route_pointer
  owed_to_target i n h = rw h refl

  not_for_target :
      (n : ℕ) (down : Bool) (app : App) (held desk : Bool)
      → (held ≡ true → (m == n) ≡ true → down ≡ false → ⊥)
      → Sound app held desk
      → Sound app held (if m == n then down else desk)
  not_for_target n down app held desk never s =
      elsewhere app held desk _ (λ h. still_down (m == n) down desk (never h) (s.1.pressed h)) s

  click-Sound :
      (sink : Sink) (n : ℕ) (down : Bool) (app : App) (held desk : Bool)
      → ((n == 0) ≡ false → is_mask n ≡ true)
      → (held ≡ true → (m == n) ≡ true → down ≡ false → sink ≡ target)
      → Sound app held desk
      → SoundBehind (click sink n down app) held (if m == n then down else desk)
  click-Sound target n down app held desk mask goes s =
      by_test (n == 0) (app, []) (feed (button n down) app)
        (λ next. SoundBehind next held (if m == n then down else desk))
        (λ zero. not_for_target n down app held desk (λ h e d. ground arith) s)
        (λ some_bit. feed-Sound (button n down) app held desk (mask some_bit) tt s)
  click-Sound chrome n down app held desk mask goes s =
      not_for_target n down app held desk (λ h e d. let same_sink = goes h e d in cc) s
  click-Sound dropped n down app held desk mask goes s =
      not_for_target n down app held desk (λ h e d. let same_sink = goes h e d in cc) s

  press-Sound :
      (sink : Sink) (action : KeyAction) (app : App) (held desk : Bool)
      → Sound app held desk
      → SoundBehind (press sink action app) held desk
  press-Sound target (KeyAction.forward k down) app held desk s =
      feed-Sound (Trigger.key k down) app held desk refl tt s
  press-Sound target KeyAction.release app held desk s =
      feed-Sound Trigger.release_key app held desk refl tt s
  press-Sound target KeyAction.paste app held desk s = s
  press-Sound target KeyAction.swallowed app held desk s = s
  press-Sound target KeyAction.unmapped app held desk s = s
  press-Sound chrome action app held desk s = s
  press-Sound dropped action app held desk s = s

  fed-Sound :
      (t : Trigger) (app : App) (held desk : Bool)
      → IsHostEvent (fed t)
      → Sound app held desk
      → SoundBehind (feed t app) held desk
  fed-Sound (button n down) app held desk w s = elim w [ ]
  fed-Sound (motion (Event.key k down)) app held desk w s = elim w [ ]
  fed-Sound (motion (Event.button n down)) app held desk w s = elim w [ ]
  fed-Sound t app held desk w s = feed-Sound t app held desk refl w s

  release-owed :
      (window : RouteInputs) (n : ℕ) (down : Bool) (app : App) (held desk : Bool)
      → Sound app held desk
      → held ≡ true
      → (m == n) ≡ true
      → down ≡ false
      → route_pointer (route_inputs window app) (PointerKind.button n down) ≡ target
  release-owed window n down app held desk s h e d =
      let i = route_inputs window app in
      let holds : holds_button n app.outstanding ≡ true =
        subst (λ k. holds_button k app.outstanding ≡ true) (==→eq m n e) (s.0.same ∙ h) in
      subst (λ x. route_pointer i (PointerKind.button n x) ≡ target) (sym d)
        (owed_to_target i n holds)

  window_event-Sound :
      (event : HostEvent) (app : App) (held desk : Bool)
      → IsHostEvent event
      → Sound app held desk
      → SoundBehind (window_event event app) held (desk_event event desk)
  unfolding window_event
  window_event-Sound (clicked window b down) app held desk w s =
      click-Sound _ (mask_of (map_button b)) down app held desk (map_button-is_mask b)
        (release-owed window (mask_of (map_button b)) down app held desk s) s
  window_event-Sound (typed window physical_key pressed repeat shift) app held desk w s =
      press-Sound _ _ app held desk s
  window_event-Sound (fed t) app held desk w s = fed-Sound t app held desk w s

  run-Sound :
      (events : List HostEvent) (app : App) (held desk : Bool)
      → All IsHostEvent events
      → Sound app held desk
      → SoundBehind (run events app) held (desk_over events desk)
  unfolding run
  run-Sound [] app held desk w s = s
  run-Sound (event ∷ events) app held desk w s =
      let here = (window_event event app).1 in
      let behind = (window_event event app).0 in
      let held' = target_after (button_contact m) here held in
      let later =
        run-Sound events behind held' (desk_event event desk) w.1
          (window_event-Sound event app held desk w.0 s) in
      subst (λ b. Sound (run events behind).0 b (desk_over events (desk_event event desk)))
        (sym (target_after-append (button_contact m) here (run events behind).1 held)) later

  start : Sound new_app false false
  unfolding holds_button
  start = (
    record { same = ground arith; byte = omega arith },
    record {
      pressed = λ e. e;
      only_captured = λ e. ground arith;
      owed = λ e. ground arith;
      closed = λ e. ground arith;
    },
  )

  -- However the flags of a new window change from one event to the next: a mouse button of the report that the user
  -- has let go is let go on the target, and the window records it so. Keys and any triggers but a button's may come
  -- between, a motion trigger carrying motion only.
  pub run_lets_go :
      (events : List HostEvent)
      → All IsHostEvent events
      → desk_over events false ≡ false
      → (target_after (button_contact m) (run events new_app).1 false ≡ false)
        × (holds_button m (run events new_app).0.outstanding ≡ false)
  run_lets_go events w up =
      let (tracked, holds) = run-Sound events new_app false false w start in
      let released : target_after (button_contact m) (run events new_app).1 false ≡ false =
        ground (arith, holds.pressed) in
      (released, tracked.same ∙ released)
