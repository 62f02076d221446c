-- ===== src/Audio/Ring/Order.antt =====
-- The order of the periods in the ring: src/audio/ring.rs.
use nano_kvm_usb_rs.Prelude.{
  ℕ, ◌+◌, List, [], ◌∷◌, ◌++◌, Option, none, some, append-nil, append_assoc, ◌==◌, arith, ◌≡◌, refl,
  leb, length, subst, inl, inr, Bool-cases, Option-cases,
}
use nano_kvm_usb_rs.Audio.Ring.{
  RingConfig, DriftPolicy, DriftAction, PeriodRing, PushOutcome, PopOutcome, on_push, on_pop,
  correct_high, make_room, hold, drop_one, insert_one, with_drift, corrects, is_full, drop_front,
  push, pop, pop_with, new, period, underran, drift_inserted, period_samples,
}
use nano_kvm_usb_rs.Audio.Ring.Counts.{Transfer, pushes, pops, run}

-- The periods of the second list are some of the first, in its order.
pub data IsPart {ℓ} {A : Type ℓ} : List A → List A → Type ℓ where
  ends : IsPart [] []
  keeps : {x : A} {xs ys : List A} → IsPart xs ys → IsPart (x ∷ xs) (x ∷ ys)
  skips : {x : A} {xs ys : List A} → IsPart xs ys → IsPart (x ∷ xs) ys

-- The queue after is a rest of the queue before.
data IsRest : List (List ℕ) → List (List ℕ) → Type 0 where
  all : {q : List (List ℕ)} → IsRest q q
  later : {x : List ℕ} {q r : List (List ℕ)} → IsRest q r → IsRest (x ∷ q) r

IsRest-drop_front : (q r : List (List ℕ)) → IsRest q r → IsRest q (drop_front r)
IsRest-drop_front [] r all = all
IsRest-drop_front (x ∷ q) r all = later all
IsRest-drop_front (x ∷ q) r (later h) = later (IsRest-drop_front q r h)

correct_high-IsRest :
    (a : DriftAction) (d : DriftPolicy) (r : PeriodRing)
    → IsRest r.queue (correct_high (a, d) r).1.queue
unfolding correct_high
correct_high-IsRest a d r = elim (Bool-cases (corrects a r)) [
  | inl e ↦ rw e (IsRest-drop_front r.queue r.queue all)
  | inr e ↦ rw e all
]

make_room-IsRest :
    (o : PushOutcome) (q : List (List ℕ)) (r : PeriodRing)
    → IsRest q r.queue
    → IsRest q (make_room (o, r)).1.queue
unfolding make_room is_full
make_room-IsRest o q r h = elim (Bool-cases (leb r.config.periods (length r.queue))) [
  | inl e ↦ rw e (IsRest-drop_front q r.queue h)
  | inr e ↦ rw e h
]

IsPart-later :
    (q m ts out : List (List ℕ)) → IsRest q m → IsPart (m ++ ts) out → IsPart (q ++ ts) out
IsPart-later q m ts out all h = h
IsPart-later (x ∷ q) m ts out (later r) h = skips (IsPart-later q m ts out r h)

IsPart-refl : (q : List (List ℕ)) → IsPart q q
IsPart-refl [] = ends
IsPart-refl (x ∷ q) = keeps (IsPart-refl q)

pushed_last :
    (samples : List ℕ) (c : PushOutcome × PeriodRing) (o : PushOutcome) (r' : PeriodRing)
    → ◌≡◌ {A = Option (PushOutcome × PeriodRing)}
        (some (
          c.0,
          record (c.1) {
            queue = c.1.queue ++ (samples ∷ []);
            counts = record (c.1.counts) { pushed = c.1.counts.pushed + 1 };
          },
        ))
        (some (o, r'))
    → r'.queue ≡ c.1.queue ++ (samples ∷ [])
pushed_last samples c o r' h = ground (arith, h)

nothing_pushed :
    {o : PushOutcome} {r' : PeriodRing}
    → ◌≡◌ {A = Option (PushOutcome × PeriodRing)} none (some (o, r'))
    → ⊥
nothing_pushed h = cc

-- The queue that a push leaves: a rest of the one before, with the new period behind it.
push-queue :
    (samples : List ℕ) (r : PeriodRing) (o : PushOutcome) (r' : PeriodRing)
    → push samples r ≡ some (o, r')
    → (m : List (List ℕ)) × IsRest r.queue m × (r'.queue ≡ m ++ (samples ∷ []))
unfolding push
push-queue samples r o r' h = elim (Bool-cases (length samples == period_samples r.config)) [
  | inl e ↦
      (let (a, d) = on_push (length r.queue) r.drift in
        let c = correct_high (a, d) r in
        (
          (make_room c).1.queue,
          make_room-IsRest c.0 r.queue c.1 (correct_high-IsRest a d r),
          pushed_last samples (make_room c) o r' (rw e at h),
        ))
  | inr e ↦ absurd (nothing_pushed (rw e at h))
]

-- The periods handed to `push`, and those that `pop` played.
abbrev pub pushed : List Transfer → List (List ℕ)
pushed [] = []
pushed (pushes samples ∷ ts) = samples ∷ pushed ts
pushed (pops ∷ ts) = pushed ts

abbrev pub heard : (List ℕ × PopOutcome) → List (List ℕ) → List (List ℕ)
heard (p, o) rest = elim o [ period ↦ p ∷ rest | underran ↦ rest | drift_inserted ↦ rest ]

abbrev pub played : List Transfer → PeriodRing → List (List ℕ)
played [] r = []
played (pops ∷ ts) r = heard (pop r).0 (played ts (pop r).1)
played (pushes samples ∷ ts) r = elim (push samples r) [ none ↦ [] | some (o, r') ↦ played ts r' ]

pop_with-heard :
    (a : DriftAction) (d : DriftPolicy) (r : PeriodRing) (q rest out : List (List ℕ))
    → IsPart ((pop_with (a, d) (record r { queue = q })).1.queue ++ rest) out
    → IsPart (q ++ rest) (heard (pop_with (a, d) (record r { queue = q })).0 out)
unfolding pop_with
pop_with-heard hold d r [] rest out h = h
pop_with-heard drop_one d r [] rest out h = h
pop_with-heard insert_one d r [] rest out h = h
pop_with-heard hold d r (x ∷ xs) rest out h = keeps h
pop_with-heard drop_one d r (x ∷ xs) rest out h = keeps h
pop_with-heard insert_one d r (x ∷ xs) rest out h = h

heard-append :
    (p : List ℕ × PopOutcome) (xs ys : List (List ℕ)) → heard p xs ++ ys ≡ heard p (xs ++ ys)
heard-append (p, period) xs ys = refl
heard-append (p, underran) xs ys = refl
heard-append (p, drift_inserted) xs ys = refl

popped-IsPart :
    (r : PeriodRing) (rest out : List (List ℕ))
    → IsPart ((pop r).1.queue ++ rest) out
    → IsPart (r.queue ++ rest) (heard (pop r).0 out)
unfolding pop
popped-IsPart r rest out h =
    let (a, d) = on_pop (length r.queue) r.drift in pop_with-heard a d r r.queue rest out h

nothing_run : {r' : PeriodRing} → ◌≡◌ {A = Option PeriodRing} none (some r') → ⊥
nothing_run h = cc

played-pushes :
    (samples : List ℕ) (ts : List Transfer) (r : PeriodRing) (o : PushOutcome) (s : PeriodRing)
    → push samples r ≡ some (o, s)
    → played (pushes samples ∷ ts) r ≡ played ts s
played-pushes samples ts r o s e = rw (e, played) refl

run_from-IsPart :
    (ts : List Transfer) (r r' : PeriodRing)
    → run ts r ≡ some r'
    → IsPart (r.queue ++ pushed ts) (played ts r ++ r'.queue)
unfolding run
run_from-IsPart [] r r' h =
    let same : r ≡ r' = cc in
    rw (append-nil r.queue) (subst (λ s. IsPart r.queue s.queue) same (IsPart-refl r.queue))
run_from-IsPart (pops ∷ ts) r r' h =
    let later = run_from-IsPart ts (pop r).1 r' h in
    rw (heard-append (pop r).0 (played ts (pop r).1) r'.queue)
      (popped-IsPart r (pushed ts) (played ts (pop r).1 ++ r'.queue) later)
run_from-IsPart (pushes samples ∷ ts) r r' h = elim (Option-cases (push samples r)) [
  | inl e ↦ absurd (nothing_run (rw (e, run) at h))
  | inr ((o, s), e) ↦
      (let (m, rest, q) = push-queue samples r o s e in
        let later = run_from-IsPart ts s r' (rw (e, run) at h) in
        rw (played-pushes samples ts r o s e) (
          IsPart-later r.queue m (samples ∷ pushed ts) (played ts s ++ r'.queue) rest (
            subst (λ l. IsPart l (played ts s ++ r'.queue))
              (append_assoc m (samples ∷ []) (pushed ts))
              (subst (λ l. IsPart (l ++ pushed ts) (played ts s ++ r'.queue)) q later))))
]

-- First in, first out: whatever is dropped, what a new ring has played and then still holds is, period
-- for period, a part of what was pushed, in the order of the pushes.
pub run-IsPart :
    (cfg : RingConfig) (ts : List Transfer) (r : PeriodRing)
    → run ts (new cfg) ≡ some r
    → IsPart (pushed ts) (played ts (new cfg) ++ r.queue)
unfolding new with_drift
run-IsPart cfg ts r h = run_from-IsPart ts (new cfg) r h
