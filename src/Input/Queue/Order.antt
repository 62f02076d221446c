-- ===== src/Input/Queue/Order.antt =====
-- What the coalescing of motion keeps: src/input/queue.rs.
use nano_kvm_usb_rs.Prelude.{
  ℕ, List, [], ◌∷◌, ◌++◌, Option, none, some, arith, ◌≡◌, refl, ap, ◌∙◌, Option-cases, inl, inr,
}
use nano_kvm_usb_rs.Prelude.Int.{ℤ, pos, ◌+ℤ◌, ◌≤ℤ◌, i32_min, i32_max, saturating_add, int_laws}
use nano_kvm_usb_rs.Input.Stats.{Counters}
use nano_kvm_usb_rs.Input.Queue.{
  Queue, Entry, EntryKind, motion, key, button, MotionRun, run_of, tail_run, set_tail_run,
  start_run, no_motion, push_motion, push_abs, push_rel, push_wheel,
}

-- Where the pointer is: the absolute position, and what all relative deltas and the wheel add up to.
pub record Place : Type 0 where
  pub pointer : Option (ℕ × ℕ)
  pub x : ℤ
  pub y : ℤ
  pub turned : ℤ

-- What the target has seen: where the pointer is, and the keys and buttons, newest first, each with the place of the
-- pointer at its time.
pub record Seen : Type 0 where
  pub place : Place
  pub transitions : List (EntryKind × Place)

abbrev pub pointed : Option (ℕ × ℕ) → Option (ℕ × ℕ) → Option (ℕ × ℕ)
pointed none old = old
pointed (some p) old = some p

abbrev pub moved : MotionRun → Place → Place
moved run p = record {
  pointer = pointed run.abs p.pointer;
  x = p.x +ℤ run.dx;
  y = p.y +ℤ run.dy;
  turned = p.turned +ℤ run.wheel;
}

abbrev pub see : EntryKind → Seen → Seen
see (motion run) s = record s { place = moved run s.place }
see (key k down) s = record s { transitions = (key k down, s.place) ∷ s.transitions }
see (button m down) s = record s { transitions = (button m down, s.place) ∷ s.transitions }

-- The entries written in order.
abbrev pub replay : List Entry → Seen → Seen
replay [] s = s
replay (e ∷ es) s = replay es (see e.kind s)

pub replay-append : (es ds : List Entry) (s : Seen) → replay (es ++ ds) s ≡ replay ds (replay es s)
replay-append [] ds s = refl
replay-append (e ∷ es) ds s = replay-append es ds (see e.kind s)

run_of-kind :
    (epoch : ℕ) (e : Entry) (run : MotionRun) → run_of epoch e ≡ some run → e.kind ≡ motion run
run_of-kind epoch e run h = ground arith

-- Seeing `next` in place of `before` is seeing `before` and then `event`.
abbrev Folds : MotionRun → MotionRun → MotionRun → Type 0
Folds before event next = (p : Place) → moved next p ≡ moved event (moved before p)

replay-set_tail_run :
    (epoch : ℕ) (es : List Entry) (before event next : MotionRun) (s : Seen)
    → tail_run epoch es ≡ some before
    → Folds before event next
    → replay (set_tail_run next es) s ≡ see (motion event) (replay es s)
unfolding tail_run set_tail_run
replay-set_tail_run epoch [] before event next s h f = cc
replay-set_tail_run epoch (e ∷ []) before event next s h f =
    rw (run_of-kind epoch e before h) (ap (λ p. record s { place = p }) (f s.place))
replay-set_tail_run epoch (e ∷ d ∷ r) before event next s h f =
    replay-set_tail_run epoch (d ∷ r) before event next (see e.kind s) h f

-- The sum of two deltas is an `i32`, so that adding them does not saturate.
abbrev pub FitsI32 : ℤ → ℤ → Type 0
FitsI32 a b = (i32_min ≤ℤ a +ℤ b) × (a +ℤ b ≤ℤ i32_max)

saturating_add-exact : (a b : ℤ) → FitsI32 a b → saturating_add a b ≡ a +ℤ b
unfolding saturating_add
saturating_add-exact a b h = ground arith

-- Equal places from equal axes.
place_eq :
    {o : Option (ℕ × ℕ)} {x x' y y' v v' : ℤ}
    → x ≡ x'
    → y ≡ y'
    → v ≡ v'
    → ◌≡◌ {A = Place}
        (record { pointer = o; x = x; y = y; turned = v })
        (record { pointer = o; x = x'; y = y'; turned = v' })
place_eq e f g = cc

add_zero : (z : ℤ) → z ≡ z +ℤ pos 0
add_zero z = grind int_laws

add_assoc : (a b c : ℤ) → a +ℤ (b +ℤ c) ≡ a +ℤ b +ℤ c
add_assoc a b c = grind int_laws

-- A delta that is added to the run moves by itself behind the run.
added : (start a b : ℤ) → FitsI32 a b → start +ℤ saturating_add a b ≡ start +ℤ a +ℤ b
added start a b h = ap (λ d. start +ℤ d) (saturating_add-exact a b h) ∙ add_assoc start a b

module _ (epoch now : ℕ) (q : Queue) (c : Counters) (s : Seen) where
  push_motion-replay :
      (fold : MotionRun → MotionRun) (count : MotionRun → Counters → Counters) (fresh : MotionRun)
      → ((run : MotionRun) → tail_run epoch q.entries ≡ some run → Folds run fresh (fold run))
      → replay (push_motion fold count fresh epoch now q c).0.entries s
        ≡ see (motion fresh) (replay q.entries s)
  unfolding push_motion start_run
  push_motion-replay fold count fresh f = elim (Option-cases (tail_run epoch q.entries)) [
    | inl e ↦ rw (e, push_motion) (replay-append q.entries _ s)
    | inr (run, e) ↦
        rw (e, push_motion) (replay-set_tail_run epoch q.entries run fresh (fold run) s e (f run e))
  ]

  pub push_abs-replay :
      (x y : ℕ)
      → replay (push_abs x y epoch now q c).0.entries s
        ≡ see (motion (record no_motion { abs = some (x, y) })) (replay q.entries s)
  unfolding push_abs
  push_abs-replay x y =
      push_motion-replay _ _ _ λ run t p. place_eq (add_zero _) (add_zero _) (add_zero _)

  pub push_rel-replay :
      (dx dy : ℤ)
      → ((run : MotionRun)
          → tail_run epoch q.entries ≡ some run
          → FitsI32 run.dx dx × FitsI32 run.dy dy)
      → replay (push_rel dx dy epoch now q c).0.entries s
        ≡ see (motion (record no_motion { dx = dx; dy = dy })) (replay q.entries s)
  unfolding push_rel
  push_rel-replay dx dy fits = push_motion-replay _ _ _ λ run t p.
      place_eq (added p.x run.dx dx (fits run t).0) (added p.y run.dy dy (fits run t).1)
        (add_zero _)

  pub push_wheel-replay :
      (delta : ℤ)
      → ((run : MotionRun) → tail_run epoch q.entries ≡ some run → FitsI32 run.wheel delta)
      → replay (push_wheel delta epoch now q c).0.entries s
        ≡ see (motion (record no_motion { wheel = delta })) (replay q.entries s)
  unfolding push_wheel
  push_wheel-replay delta fits =
      push_motion-replay _ _ _
        λ run t p. place_eq (add_zero _) (add_zero _) (added p.turned run.wheel delta (fits run t))
