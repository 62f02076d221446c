-- ===== src/Input/Queue/Invariant.antt =====
-- The invariant of the input queue and its bound: src/input/queue.rs.
use nano_kvm_usb_rs.Prelude.{
  ℕ, ◌+◌, ◌≤◌, List, [], ◌∷◌, ◌++◌, Bool, true, false, ◌&&◌, not, none, some, ◌==◌, if◌then◌else◌,
  length, All, ok, arith, ◌≡◌, inl, inr, Bool-cases, Option-cases,
}
use nano_kvm_usb_rs.Prelude.Int.{ℤ}
use nano_kvm_usb_rs.Input.Stats.{Counters}
use nano_kvm_usb_rs.Input.Queue.{
  Queue, Entry, EntryKind, motion, MotionRun, is_barrier, run_of, tail_run, set_tail_run, start_run,
  push_abs, push_rel, push_wheel, push_barrier, push_motion, count_barriers, new,
}

-- Two motion runs of one epoch, which the queue never holds side by side.
abbrev pub mergeable : Entry → Entry → Bool
mergeable e d = not (is_barrier e.kind) && (not (is_barrier d.kind) && e.epoch == d.epoch)

-- Epochs do not fall along the queue, and neighbouring runs of one epoch are merged.
abbrev pub AreLinked : List Entry → Type 0
AreLinked [] = Unit
AreLinked (e ∷ []) = Unit
AreLinked (e ∷ d ∷ r) = (e.epoch ≤ d.epoch) × (mergeable e d ≡ false) × AreLinked (d ∷ r)

abbrev pub AreUpto : ℕ → List Entry → Type 0
AreUpto epoch = All (λ e. e.epoch ≤ epoch)

pub record IsValid (q : Queue) : Type 0 where
  pub counted : q.barriers ≡ count_barriers q.entries
  pub bounded : q.barriers ≤ q.max_barriers
  pub positive : 1 ≤ q.max_barriers
  pub linked : AreLinked q.entries

pub new-IsValid : (n : ℕ) → IsValid (new n)
unfolding new count_barriers
new-IsValid n = omega arith

pub count_barriers-append :
    (es : List Entry) (e : Entry)
    → count_barriers (es ++ (e ∷ [])) ≡ count_barriers es + (if is_barrier e.kind then 1 else 0)
unfolding count_barriers
count_barriers-append [] e = ground arith
count_barriers-append (d ∷ es) e = ground (arith, count_barriers-append es e)

not_mergeable :
    (d e : Entry) → (is_barrier e.kind ≡ false → run_of e.epoch d ≡ none) → mergeable d e ≡ false
not_mergeable d e h = elim (Bool-cases (is_barrier e.kind)) [
  | inl b ↦ ground (arith, b)
  | inr b ↦ ground (arith, b, h b)
]

not_barrier : (kind : EntryKind) → is_barrier kind ≡ true → is_barrier kind ≡ false → ⊥
not_barrier kind b n = ground (arith, b, n)

-- What goes behind a linked queue: not older, and no run that the tail run could take.
AreLinked-append :
    (es : List Entry) (e : Entry)
    → AreLinked es
    → AreUpto e.epoch es
    → (is_barrier e.kind ≡ false → tail_run e.epoch es ≡ none)
    → AreLinked (es ++ (e ∷ []))
unfolding tail_run
AreLinked-append [] e l u t = tt
AreLinked-append (d ∷ []) e l u t = (u.0, not_mergeable d e t, tt)
AreLinked-append (d ∷ c ∷ r) e l u t = (l.0, l.1, AreLinked-append (c ∷ r) e l.2 u.1 t)

set_tail_run_lem :
    (epoch : ℕ) (es : List Entry) (old run : MotionRun)
    → tail_run epoch es ≡ some old
    → (count_barriers (set_tail_run run es) ≡ count_barriers es)
      × (length (set_tail_run run es) ≡ length es)
unfolding tail_run set_tail_run count_barriers
set_tail_run_lem epoch [] old run h = cc
set_tail_run_lem epoch (e ∷ []) old run h = ground arith
set_tail_run_lem epoch (e ∷ d ∷ r) old run h =
    ground (arith, set_tail_run_lem epoch (d ∷ r) old run h)

AreLinked-set_tail_run :
    (epoch : ℕ) (es : List Entry) (old run : MotionRun)
    → tail_run epoch es ≡ some old
    → AreLinked es
    → AreLinked (set_tail_run run es)
unfolding tail_run set_tail_run
AreLinked-set_tail_run epoch [] old run h l = cc
AreLinked-set_tail_run epoch (e ∷ []) old run h l = tt
AreLinked-set_tail_run epoch (e ∷ d ∷ []) old run h l = (l.0, ground (arith, l.1), tt)
AreLinked-set_tail_run epoch (e ∷ d ∷ c ∷ r) old run h l =
    (l.0, l.1, AreLinked-set_tail_run epoch (d ∷ c ∷ r) old run h l.2)

-- What a motion submission leaves: the tail run replaced, or a new run behind the others.
merged-IsValid :
    (q : Queue) (epoch : ℕ) (old run : MotionRun)
    → IsValid q
    → tail_run epoch q.entries ≡ some old
    → IsValid (record q { entries = set_tail_run run q.entries })
merged-IsValid q epoch old run v h = record {
  counted = omega (arith, v.counted, set_tail_run_lem epoch q.entries old run h);
  bounded = v.bounded;
  positive = v.positive;
  linked = AreLinked-set_tail_run epoch q.entries old run h v.linked;
}

started-IsValid :
    (q : Queue) (epoch now : ℕ) (run : MotionRun)
    → IsValid q
    → AreUpto epoch q.entries
    → tail_run epoch q.entries ≡ none
    → IsValid (start_run run epoch now q)
unfolding start_run
started-IsValid q epoch now run v u h =
    let e : Entry = record { kind = motion run; epoch = epoch; enqueued = now } in
    record {
      counted = omega (arith, v.counted, count_barriers-append q.entries e);
      bounded = v.bounded;
      positive = v.positive;
      linked = AreLinked-append q.entries e v.linked u (λ b. h);
    }

-- The three motion submissions and the transition keep the invariant, if no entry is younger than
-- the epoch that they carry.
module _ (q : Queue) (c : Counters) (epoch now : ℕ) (v : IsValid q)
    (u : AreUpto epoch q.entries) where
  pub push_motion-IsValid :
      (fold : MotionRun → MotionRun) (count : MotionRun → Counters → Counters) (fresh : MotionRun)
      → IsValid (push_motion fold count fresh epoch now q c).0
  unfolding push_motion
  push_motion-IsValid fold count fresh = elim (Option-cases (tail_run epoch q.entries)) [
    | inl e ↦ rw (e, push_motion) (started-IsValid q epoch now fresh v u e)
    | inr (run, e) ↦ rw (e, push_motion) (merged-IsValid q epoch run (fold run) v e)
  ]

  pub push_abs-IsValid : (x y : ℕ) → IsValid (push_abs x y epoch now q c).0
  unfolding push_abs
  push_abs-IsValid x y = push_motion-IsValid _ _ _

  pub push_rel-IsValid : (dx dy : ℤ) → IsValid (push_rel dx dy epoch now q c).0
  unfolding push_rel
  push_rel-IsValid dx dy = push_motion-IsValid _ _ _

  pub push_wheel-IsValid : (delta : ℤ) → IsValid (push_wheel delta epoch now q c).0
  unfolding push_wheel
  push_wheel-IsValid delta = push_motion-IsValid _ _ _

  pub push_barrier-IsValid :
      (kind : EntryKind) {r : Queue × Counters}
      → is_barrier kind ≡ true
      → push_barrier kind epoch now q c ≡ ok r
      → IsValid r.0
  unfolding push_barrier
  push_barrier-IsValid kind b h =
      let e : Entry = record { kind = kind; epoch = epoch; enqueued = now } in
      ground (
        arith,
        v.counted,
        v.bounded,
        v.positive,
        count_barriers-append q.entries e,
        AreLinked-append q.entries e v.linked u (λ n. absurd (not_barrier kind b n)),
      )
