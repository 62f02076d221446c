-- ===== src/Viewer/Chrome/Job/Turns.antt =====
-- src/viewer/chrome/paste.rs: a turn of the loop that plays a paste job.
use nano_kvm_usb_rs.Prelude.{
  by_test, eq→==, ℕ, zero, suc, ◌+◌, ◌≤◌, ◌<◌, List, [], ◌∷◌, drop, true, false, Option, none, some,
  ◌==◌, if◌then◌else◌, length, get_elem?, ◌≡◌, refl, ap, ◌∙◌, arith, All,
}
use nano_kvm_usb_rs.Input.Event.{Event}
use nano_kvm_usb_rs.Viewer.Chrome.Outstanding.{Outstanding, set_key, set_button}
use nano_kvm_usb_rs.Viewer.Chrome.Job.{
  PasteJob, done, is_over, is_early, total, next_step, delivered, deliver, advance, held_behind,
}

-- A step that a job may have: a key transition or a button release.
abbrev pub IsPlayable : Event → Type 0
IsPlayable (Event.key k down) = Unit
IsPlayable (Event.button mask false) = Unit
IsPlayable e = ⊥

-- The event loop with a producer that accepts every step: it asks for the step that is due, submits it, says so,
-- and comes back when the next one is due.
abbrev pub submitted :
    Option Event → ℕ → PasteJob → (PasteJob → List Event × PasteJob) → List Event × PasteJob
submitted none now j later = ([], j)
submitted (some e) now j later = let rest = later (delivered now j) in (e ∷ rest.0, rest.1)

unfoldable pub play : ℕ → ℕ → PasteJob → List Event × PasteJob
play zero now j = ([], j)
play (suc turns) now j = submitted (next_step now j) now j (play turns (now + j.pace))

-- A job in progress whose next step is due.
pub record IsDue (now : ℕ) (j : PasteJob) : Type 0 where
  pub running : j.outcome ≡ none
  pub due : is_early j.next_due now ≡ false

pub next_step-due :
    (now : ℕ) (j : PasteJob) → IsDue now j → next_step now j ≡ get_elem? j.steps j.sent
unfolding next_step
next_step-due now j d = rw (d.running, d.due) refl

playable_held :
    (e : Event) (o : Outstanding)
    → IsPlayable e
    → (p : Outstanding) × (held_behind (some e) o ≡ some p)
playable_held (Event.key k down) o p = (set_key k down o, refl)
playable_held (Event.button mask false) o p = (set_button mask false o, refl)
playable_held (Event.button mask true) o p = absurd p
playable_held (Event.pointer_abs x y) o p = absurd p
playable_held (Event.pointer_rel x y) o p = absurd p
playable_held (Event.wheel v) o p = absurd p

-- Behind the delivery of a step.
pub record Went (now : ℕ) (j j' : PasteJob) : Type 0 where
  pub steps : j'.steps ≡ j.steps
  pub sent : j'.sent ≡ suc j.sent
  pub due : is_early j'.next_due (now + j.pace) ≡ false
  pub outcome : j'.outcome ≡ (if suc j.sent == total j then some (done (suc j.sent)) else none)

deliver-Went :
    (o : Option Outstanding) (now : ℕ) (j : PasteJob) (q : Outstanding)
    → j.outcome ≡ none
    → o ≡ some q
    → Went now j (deliver o now j)
unfolding advance
deliver-Went none now j q r h = cc
deliver-Went (some p) now j q r h = record {
  steps = refl;
  sent = refl;
  due = ground arith;
  outcome = ap (λ o. if suc j.sent == total j then some (done (suc j.sent)) else o) r;
}

pub delivered-Went :
    (now : ℕ) (j : PasteJob) (e : Event)
    → j.outcome ≡ none
    → get_elem? j.steps j.sent ≡ some e
    → IsPlayable e
    → Went now j (delivered now j)
unfolding delivered
delivered-Went now j e r g p =
    let (q, h) = playable_held e j.held p in
    let o = held_behind (get_elem? j.steps j.sent) j.held in
    by_test (is_over j.outcome) j (deliver o now j) (Went now j)
      (λ over. let not_over : is_over j.outcome ≡ false = ap is_over r in cc)
      (λ over. deliver-Went o now j q r (ap (λ s. held_behind s j.held) g ∙ h))

-- The step at a place, with the steps from it on.
pub step_at :
    (k : ℕ) (steps : List Event)
    → suc k ≤ length steps
    → All IsPlayable steps
    → (e : Event) × (get_elem? steps k ≡ some e)
      × (drop k steps ≡ e ∷ drop (suc k) steps)
      × IsPlayable e
step_at k [] h a = absurd (omega (arith, h))
step_at zero (e ∷ steps) h a = (e, refl, refl, a.0)
step_at (suc k) (e ∷ steps) h a =
    let (f, g, d, p) = step_at k steps (omega (arith, h)) a.1 in (f, g, d, p)

pub play_first :
    (turns now : ℕ) (j : PasteJob) (e : Event)
    → next_step now j ≡ some e
    → play (suc turns) now j ≡ (
      e ∷ (play turns (now + j.pace) (delivered now j)).0,
      (play turns (now + j.pace) (delivered now j)).1,
    )
unfolding play
play_first turns now j e h = rw h refl

pub none_left : (steps : List Event) → drop (length steps) steps ≡ []
none_left [] = refl
none_left (e ∷ steps) = none_left steps

-- Behind the last step.
pub last_outcome :
    (now : ℕ) (j j' : PasteJob) (k : ℕ)
    → Went now j j'
    → j.sent ≡ k
    → suc k ≡ total j
    → j'.outcome ≡ some (done (total j))
last_outcome now j j' k went t c =
    let same : suc j.sent ≡ total j = ap suc t ∙ c in
    let e = eq→== (suc j.sent) (total j) same in
    went.outcome
    ∙ ap (λ b. if b then some (done (suc j.sent)) else none) e
    ∙ ap (λ n. some (done n)) same

-- Behind any other.
pub next-IsDue :
    (now : ℕ) (j j' : PasteJob) (k : ℕ)
    → Went now j j'
    → j.sent ≡ k
    → suc k < total j
    → IsDue (now + j.pace) j'
next-IsDue now j j' k went t c =
    let e : (suc j.sent == total j) ≡ false = ground (arith, t, c) in
    record {
      running = went.outcome ∙ ap (λ b. if b then some (done (suc j.sent)) else none) e;
      due = went.due;
    }

pub play_nothing : (now : ℕ) (j : PasteJob) → play 0 now j ≡ ([], j)
unfolding play
play_nothing now j = refl
