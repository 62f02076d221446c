-- ===== src/Viewer/Chrome/Paste/Sent.antt =====
-- What the transitions of a script type on the target: src/viewer/chrome/shortcut.rs with
-- src/input/held.rs.
use nano_kvm_usb_rs.Prelude.{
  ℕ, List, [], ◌∷◌, ◌++◌, map, Bool, true, false, Option, none, some, ◌==◌, arith, ◌≡◌, refl, ap,
  ◌∙◌, eq→==,
}
use nano_kvm_usb_rs.Proto.Report.{KeyboardReport, keyboard_release_all, HidKey, modifier, usage}
use nano_kvm_usb_rs.Input.Event.{Event}
use nano_kvm_usb_rs.Input.Held.{
  HeldState, apply_key, press_usage, release_usage, report, reported_usages, reported_count, holds,
  remove, fill,
}
use nano_kvm_usb_rs.Input.Held
use nano_kvm_usb_rs.Script.Steps.{Step, tap, Label}
use nano_kvm_usb_rs.Script.Layout.Board.{typed_char}
use nano_kvm_usb_rs.Script.Target.{typed, new_keys, is_down, shift_held, no_keys}
use nano_kvm_usb_rs.Script.Compile.Typing.{IsTyped, shift_bit, press_report, cons_eq}
use nano_kvm_usb_rs.Viewer.Chrome.Shortcut.{differences, transitions, transitions_from}

abbrev answer : Option KeyboardReport → List KeyboardReport → List KeyboardReport
answer none rest = rest
answer (some r) rest = r ∷ rest

-- The reports that the writer sends for key events, from what it holds.
unfoldable pub sent : HeldState → List Event → List KeyboardReport
sent h [] = []
sent h (Event.key k down ∷ es) = answer (apply_key k down h).0 (sent (apply_key k down h).1 es)
sent h (_ ∷ es) = sent h es

abbrev key_down : HidKey → Event
key_down k = Event.key k true

abbrev key_up : HidKey → Event
key_up k = Event.key k false

abbrev press_events : ℕ → Bool → List Event
press_events u true = key_down (modifier 2) ∷ key_down (usage u) ∷ []
press_events u false = key_down (usage u) ∷ []

abbrev release_events : ℕ → Bool → List Event
release_events u true = key_up (usage u) ∷ key_up (modifier 2) ∷ []
release_events u false = key_up (usage u) ∷ []

differences_press :
    (u : ℕ) (b : Bool)
    → (u == 0) ≡ false
    → differences keyboard_release_all (press_report u (shift_bit b)) ≡ press_events u b
unfolding differences
differences_press u true n = let n' : (0 == u) ≡ false = ground (arith, n) in simp (n, n') refl
differences_press u false n = let n' : (0 == u) ≡ false = ground (arith, n) in simp (n, n') refl

differences_release :
    (u : ℕ) (b : Bool)
    → (u == 0) ≡ false
    → differences (press_report u (shift_bit b)) keyboard_release_all ≡ release_events u b
unfolding differences
differences_release u true n = let n' : (0 == u) ≡ false = ground (arith, n) in simp (n, n') refl
differences_release u false n = let n' : (0 == u) ≡ false = ground (arith, n) in simp (n, n') refl

shift_alone : KeyboardReport
shift_alone = record { modifiers = 2; keys = 0 ∷ 0 ∷ 0 ∷ 0 ∷ 0 ∷ 0 ∷ [] }

abbrev tap_reports : ℕ → Bool → List KeyboardReport → List KeyboardReport
tap_reports u true later =
    shift_alone ∷ press_report u 2 ∷ shift_alone ∷ keyboard_release_all ∷ later
tap_reports u false later = press_report u 0 ∷ keyboard_release_all ∷ later

-- The keyboard with one key held, and with none.
abbrev held_key : ℕ → Held.HeldKey
held_key u = record { usage = u; status = Held.reported }

abbrev with_key : ℕ → ℕ → HeldState
with_key u m = record { keys = held_key u ∷ []; modifiers = m; buttons = 0 }

abbrev without_key : ℕ → HeldState
without_key m = record { keys = []; modifiers = m; buttons = 0 }

remove_only : (u : ℕ) → remove u (held_key u ∷ []) ≡ some (held_key u, [])
unfolding remove
remove_only u = let e = eq→== u u refl in rw e refl

key_pressed :
    (u m : ℕ) → apply_key (usage u) true (without_key m) ≡ (some (press_report u m), with_key u m)
unfolding apply_key press_usage report reported_usages reported_count holds fill
key_pressed u m = refl

key_released :
    (u m : ℕ)
    → apply_key (usage u) false (with_key u m)
      ≡ (some (record { modifiers = m; keys = 0 ∷ 0 ∷ 0 ∷ 0 ∷ 0 ∷ 0 ∷ [] }), without_key m)
unfolding apply_key release_usage report reported_usages fill
key_released u m = let e = remove_only u in ground (arith, e)

shift_pressed : apply_key (modifier 2) true (without_key 0) ≡ (some shift_alone, without_key 2)
unfolding apply_key report reported_usages fill shift_alone
shift_pressed = refl

shift_released :
    apply_key (modifier 2) false (without_key 2) ≡ (some keyboard_release_all, without_key 0)
unfolding apply_key report reported_usages fill
shift_released = refl

sent_key :
    (h : HeldState) (k : HidKey) (down : Bool) {r : KeyboardReport} {h' : HeldState}
    (es : List Event)
    → apply_key k down h ≡ (some r, h')
    → sent h (Event.key k down ∷ es) ≡ r ∷ sent h' es
unfolding sent
sent_key h k down es e = rw e refl

sent_tap :
    (u : ℕ) (b : Bool) (later : List Event)
    → sent Held.new (press_events u b ++ (release_events u b ++ later))
      ≡ tap_reports u b (sent Held.new later)
unfolding shift_alone
sent_tap u true later =
    let up = sent_key (without_key 2) (modifier 2) false later shift_released in
    let key_goes =
      sent_key (with_key u 2) (usage u) false (key_up (modifier 2) ∷ later) (key_released u 2) in
    let key_comes =
      sent_key (without_key 2) (usage u) true (release_events u true ++ later) (key_pressed u 2) in
    let down =
      sent_key (without_key 0) (modifier 2) true
        (key_down (usage u) ∷ (release_events u true ++ later)) shift_pressed in
    down
    ∙ ap (λ rs. shift_alone ∷ rs)
        (key_comes ∙ ap (λ rs. press_report u 2 ∷ rs) (key_goes ∙ ap (λ rs. shift_alone ∷ rs) up))
sent_tap u false later =
    let key_goes = sent_key (with_key u 0) (usage u) false later (key_released u 0) in
    sent_key (without_key 0) (usage u) true (release_events u false ++ later) (key_pressed u 0)
    ∙ ap (λ rs. press_report u 0 ∷ rs) key_goes

typed-tap_reports :
    (lock b : Bool) (u : ℕ) (later : List KeyboardReport)
    → (u == 0) ≡ false
    → typed lock no_keys (tap_reports u b later) ≡ typed_char lock b u ∷ typed lock no_keys later
unfolding typed new_keys is_down shift_held shift_alone
typed-tap_reports lock true u later n =
    let n' : (0 == u) ≡ false = ground (arith, n) in simp (n, n') refl
typed-tap_reports lock false u later n =
    let n' : (0 == u) ≡ false = ground (arith, n) in simp (n, n') refl

transitions-tap :
    (u m : ℕ) (l : Label) (rest : List Step)
    → transitions_from keyboard_release_all (tap u m l [] ++ rest)
      ≡ differences keyboard_release_all (press_report u m)
        ++ (differences (press_report u m) keyboard_release_all
            ++ transitions_from keyboard_release_all rest)
unfolding transitions_from tap
transitions-tap u m l rest = refl

tap_events :
    (u : ℕ) (b : Bool) (l : Label) (rest : List Step)
    → (u == 0) ≡ false
    → transitions_from keyboard_release_all (tap u (shift_bit b) l [] ++ rest)
      ≡ press_events u b ++ (release_events u b ++ transitions_from keyboard_release_all rest)
tap_events u b l rest n =
    transitions-tap u (shift_bit b) l rest
    ∙ rw (differences_press u b n, differences_release u b n) refl

-- Steps that type a text, turned into transitions and sent, type it too.
pub IsTyped-transitions :
    (lock : Bool) (text : List ℕ) (steps : List Step)
    → IsTyped lock text steps
    → typed lock no_keys (sent Held.new (transitions steps)) ≡ map (λ c. some c) text
unfolding transitions transitions_from sent typed
IsTyped-transitions lock [] steps e = rw e refl
IsTyped-transitions lock (c ∷ text) steps (u, b, l, rest, e, n, t, later) =
    let tail = transitions_from keyboard_release_all rest in
    ap (λ s. typed lock no_keys (sent Held.new (transitions_from keyboard_release_all s))) e
    ∙ ap (λ es. typed lock no_keys (sent Held.new es)) (tap_events u b l rest n)
    ∙ ap (typed lock no_keys) (sent_tap u b tail)
    ∙ typed-tap_reports lock b u (sent Held.new tail) n
    ∙ cons_eq t (IsTyped-transitions lock text rest later)
