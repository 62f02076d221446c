-- ===== src/Viewer/Chrome/Job/Playing.antt =====
-- src/viewer/chrome/paste.rs: a job is played to its end.
use nano_kvm_usb_rs.Prelude.{
  ℕ, zero, suc, ◌+◌, ◌≤◌, List, [], ◌∷◌, ◌++◌, drop, some, length, get_elem?, ◌≡◌, refl, sym, ap,
  ◌∙◌, arith, All, map, All-append, length-append,
}
use nano_kvm_usb_rs.Input.Event.{Event}
use nano_kvm_usb_rs.Proto.Report.{HidKey}
use nano_kvm_usb_rs.Viewer.Chrome.Outstanding.{Outstanding, held_keys, held_buttons}
use nano_kvm_usb_rs.Viewer.Chrome.Job.{
  PasteJob, done, total, delivered, new, releases, key_up, button_up,
}
use nano_kvm_usb_rs.Viewer.Chrome.Job.Turns.{
  IsPlayable, play, IsDue, next_step-due, Went, delivered-Went, step_at, play_first, none_left,
  last_outcome, next-IsDue, play_nothing,
}

-- What is left to play behind a step.
abbrev IsPlayed : ℕ → ℕ → PasteJob → List Event → ℕ → Type 0
IsPlayed turns now j steps k =
    ((play turns now j).0 ≡ drop k steps)
    × ((play turns now j).1.outcome ≡ some (done (length steps)))

-- One turn: the step at the place of the job goes out, and the rest is played behind it.
turn-IsPlayed :
    (n now : ℕ) (j : PasteJob) (steps : List Event) (k : ℕ)
    → IsDue now j
    → j.steps ≡ steps
    → j.sent ≡ k
    → All IsPlayable steps
    → n + suc k ≡ length steps
    → (Went now j (delivered now j)
        → total j ≡ length steps
        → IsPlayed n (now + j.pace) (delivered now j) steps (suc k))
    → IsPlayed (suc n) now j steps k
turn-IsPlayed n now j steps k d s t a c later =
    let (e, g, rest, p) = step_at k steps (omega (arith, c)) a in
    let at_place : get_elem? j.steps j.sent ≡ some e =
      ap (λ i. get_elem? j.steps i) t ∙ ap (λ l. get_elem? l k) s ∙ g in
    let went = delivered-Went now j e d.running at_place p in
    let first = play_first n now j e (next_step-due now j d ∙ at_place) in
    let (out, end) = later went (ap (λ l. length l) s) in
    (ap (λ o. o.0) first ∙ ap (λ l. e ∷ l) out ∙ sym rest, ap (λ o. o.1.outcome) first ∙ end)

last-IsPlayed :
    (now : ℕ) (j j' : PasteJob) (steps : List Event) (k : ℕ)
    → Went now j j'
    → j.sent ≡ k
    → suc k ≡ length steps
    → total j ≡ length steps
    → IsPlayed 0 (now + j.pace) j' steps (suc k)
last-IsPlayed now j j' steps k went t whole size =
    let e = play_nothing (now + j.pace) j' in
    (
      ap (λ o. o.0) e ∙ sym (ap (λ i. drop i steps) whole ∙ none_left steps),
      ap (λ o. o.1.outcome) e
          ∙ last_outcome now j j' k went t (whole ∙ sym size)
          ∙ ap (λ i. some (done i)) size,
    )

due-IsPlayed :
    (n now : ℕ) (j : PasteJob) (steps : List Event) (k : ℕ)
    → IsDue now j
    → j.steps ≡ steps
    → j.sent ≡ k
    → All IsPlayable steps
    → n + suc k ≡ length steps
    → IsPlayed (suc n) now j steps k
due-IsPlayed zero now j steps k d s t a c =
    turn-IsPlayed zero now j steps k d s t a c
      (λ went size. last-IsPlayed now j (delivered now j) steps k went t (omega (arith, c)) size)
due-IsPlayed (suc n) now j steps k d s t a c =
    turn-IsPlayed (suc n) now j steps k d s t a c (λ went size.
      due-IsPlayed n (now + j.pace) (delivered now j) steps (suc k)
        (next-IsDue now j (delivered now j) k went t (omega (arith, c, size))) (went.steps ∙ s)
        (went.sent ∙ ap suc t) a (omega (arith, c)))

releases-ArePlayable : (o : Outstanding) → All IsPlayable (releases o)
unfolding releases
releases-ArePlayable o =
    All-append IsPlayable (map key_up (held_keys o)) (map button_up (held_buttons o))
      (keys_up-ArePlayable (held_keys o)) (buttons_up-ArePlayable (held_buttons o))
  where
    keys_up-ArePlayable : (ks : List HidKey) → All IsPlayable (map key_up ks)
    keys_up-ArePlayable [] = tt
    keys_up-ArePlayable (k ∷ ks) = (tt, keys_up-ArePlayable ks)

    buttons_up-ArePlayable : (bs : List ℕ) → All IsPlayable (map button_up bs)
    buttons_up-ArePlayable [] = tt
    buttons_up-ArePlayable (b ∷ bs) = (tt, buttons_up-ArePlayable bs)

whole-IsPlayed :
    (turns now : ℕ) (j : PasteJob) (steps : List Event)
    → IsDue now j
    → j.steps ≡ steps
    → j.sent ≡ 0
    → All IsPlayable steps
    → turns ≡ length steps
    → 1 ≤ turns
    → IsPlayed turns now j steps 0
whole-IsPlayed zero now j steps d s t a c h = absurd (omega (arith, h))
whole-IsPlayed (suc n) now j steps d s t a c h =
    due-IsPlayed n now j steps 0 d s t a (omega (arith, c))

-- A job of key transitions, or of button releases, that has one at least: asked for each step when it is due, and
-- told that each was accepted, it hands out the releases of what the user held and then its body, in
-- order and each step once, and is done when it has handed out the last.
pub new-IsPlayed :
    (o : Outstanding) (body : List Event) (pace now : ℕ)
    → All IsPlayable body
    → 1 ≤ length body
    → let steps : List Event = releases o ++ body in
      let out : List Event × PasteJob = play (length steps) now (new o body pace) in
      (out.0 ≡ steps) × (out.1.outcome ≡ some (done (length steps)))
unfolding new
new-IsPlayed o body pace now a h =
    let steps = releases o ++ body in
    let size = length-append (releases o) body in
    whole-IsPlayed (length steps) now (new o body pace) steps
      (record { running = refl; due = refl }) refl refl
      (All-append IsPlayable (releases o) body (releases-ArePlayable o) a) refl
      (omega (arith, size, h))
