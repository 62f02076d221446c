-- ===== src/Audio/Ring/Pushing.antt =====
-- src/audio/ring.rs: a push keeps the counts of the ring.
use nano_kvm_usb_rs.Prelude.{
  ℕ, ◌+◌, ◌-◌, ◌*◌, ◌≤◌, ◌<◌, List, [], ◌∷◌, ◌++◌, true, false, some, length, length-append, All,
  All-append, ◌==◌, leb, if◌then◌else◌, arith, ◌≡◌, refl, inl, inr, Bool-cases, sym, ap, ◌∙◌,
}
use nano_kvm_usb_rs.Audio.Ring.{
  DriftPolicy, PeriodRing, PushOutcome, on_push, on_pop, reset, period_samples, DriftAction,
  is_drop, is_insert, push, corrects, correct_high, make_room, is_full, drop_front, is_empty,
}

-- Whole periods only, no more than the ring is configured for, every period accounted for, and
-- corrections at least `hold` transfers apart.
pub record IsValid (r : PeriodRing) : Type 0 where
  pub positive : 1 ≤ r.config.periods
  pub fits : length r.queue ≤ r.config.periods
  pub balanced :
      r.counts.pushed ≡ r.counts.popped + r.counts.overruns + r.counts.drift_drops + length r.queue
  pub spaced_high : r.counts.drift_drops * r.drift.hold + r.drift.high_streak ≤ r.counts.pushed
  pub spaced_low :
      r.counts.drift_inserts * r.drift.hold + r.drift.low_streak
      ≤ r.counts.popped + r.counts.underruns + r.counts.drift_inserts
  pub whole : All (λ p. length p ≡ period_samples r.config) r.queue

pub mul_suc : (a b : ℕ) → (a + 1) * b ≡ a * b + b
mul_suc a b = grind arith

All-drop_front : (P : List ℕ → Type 0) (q : List (List ℕ)) → All P q → All P (drop_front q)
All-drop_front P [] a = tt
All-drop_front P (p ∷ ps) a = a.1

length-is_empty : (q : List (List ℕ)) → is_empty q ≡ false → 1 ≤ length q
length-is_empty [] h = ground arith
length-is_empty (p ∷ ps) h = omega arith

length-drop_front : (q : List (List ℕ)) → length (drop_front q) ≡ length q - 1
length-drop_front [] = refl
length-drop_front (p ∷ ps) = omega arith

-- A ring about to take a period: like a valid one, one push and one period short.
record IsOpening (r : PeriodRing) : Type 0 where
  positive : 1 ≤ r.config.periods
  fits : length r.queue ≤ r.config.periods
  balanced :
      r.counts.pushed ≡ r.counts.popped + r.counts.overruns + r.counts.drift_drops + length r.queue
  spaced_high : r.counts.drift_drops * r.drift.hold + r.drift.high_streak ≤ r.counts.pushed + 1
  spaced_low :
      r.counts.drift_inserts * r.drift.hold + r.drift.low_streak
      ≤ r.counts.popped + r.counts.underruns + r.counts.drift_inserts
  whole : All (λ p. length p ≡ period_samples r.config) r.queue

-- What the policy does to itself at a push, and at a pop.
record Pushes (level : ℕ) (p : DriftPolicy) (a : DriftAction) (d : DriftPolicy) : Type 0 where
  same : d.hold ≡ p.hold
  other : d.low_streak ≡ p.low_streak
  fired : (if is_drop a then p.hold else 0) + d.high_streak ≤ p.high_streak + 1

pub record Pops (level : ℕ) (p : DriftPolicy) (a : DriftAction) (d : DriftPolicy) : Type 0 where
  pub same : d.hold ≡ p.hold
  pub other : d.high_streak ≡ p.high_streak
  pub fired : (if is_insert a then p.hold else 0) + d.low_streak ≤ p.low_streak + 1

on_push-Pushes :
    (level : ℕ) (p : DriftPolicy) → Pushes level p (on_push level p).0 (on_push level p).1
unfolding on_push
on_push-Pushes level p = ground arith

pub on_pop-Pops : (level : ℕ) (p : DriftPolicy) → Pops level p (on_pop level p).0 (on_pop level p).1
unfolding on_pop
on_pop-Pops level p = ground arith

corrects-off_walls :
    (a : DriftAction) (r : PeriodRing)
    → corrects a r ≡ true
    → (is_drop a ≡ true) × (1 ≤ length r.queue) × (length r.queue < r.config.periods)
unfolding corrects is_full
corrects-off_walls a r h = elim (Bool-cases (is_drop a)) [
  | inl e ↦ ground (arith, length-is_empty r.queue)
  | inr e ↦ ground arith
]

correct_high-IsOpening :
    (a : DriftAction) (d : DriftPolicy) (r : PeriodRing)
    → Pushes (length r.queue) r.drift a d
    → IsValid r
    → IsOpening (correct_high (a, d) r).1
unfolding correct_high
correct_high-IsOpening a d r p v = elim (Bool-cases (corrects a r)) [
  | inl e ↦
      (let (drops, some_left, room) = corrects-off_walls a r e in
        rw (e, correct_high)
          (record {
            positive = v.positive;
            fits = omega (arith, v.fits, length-drop_front r.queue);
            balanced = omega (arith, v.balanced, length-drop_front r.queue, some_left);
            spaced_high = ground (
              arith,
              drops,
              p.same,
              p.fired,
              v.spaced_high,
              mul_suc r.counts.drift_drops r.drift.hold,
            );
            spaced_low = ground (arith, p.same, p.other, v.spaced_low);
            whole = All-drop_front (λ q. length q ≡ period_samples r.config) r.queue v.whole;
          }))
  | inr e ↦
      rw (e, correct_high)
        (record {
          positive = v.positive;
          fits = v.fits;
          balanced = v.balanced;
          spaced_high = ground (arith, p.same, p.fired, v.spaced_high);
          spaced_low = ground (arith, p.same, p.other, v.spaced_low);
          whole = v.whole;
        })
]

-- Room for one more period.
record HasRoom (r : PeriodRing) : Type 0 where
  opening : IsOpening r
  room : length r.queue < r.config.periods

make_room-HasRoom : (o : PushOutcome) (r : PeriodRing) → IsOpening r → HasRoom (make_room (o, r)).1
unfolding make_room reset is_full
make_room-HasRoom o r v = elim (Bool-cases (leb r.config.periods (length r.queue))) [
  | inl e ↦
      rw (e, make_room)
        (record {
          opening = record {
            positive = v.positive;
            fits = omega (arith, v.fits, length-drop_front r.queue);
            balanced = ground (arith, v.balanced, length-drop_front r.queue, v.positive, e);
            spaced_high = omega (arith, v.spaced_high);
            spaced_low = omega (arith, v.spaced_low);
            whole = All-drop_front (λ q. length q ≡ period_samples r.config) r.queue v.whole;
          };
          room = omega (arith, v.fits, v.positive, length-drop_front r.queue);
        })
  | inr e ↦ rw (e, make_room) (record { opening = v; room = ground (arith, e) })
]

same_config :
    (o : PushOutcome) (a : DriftAction) (d : DriftPolicy) (r : PeriodRing)
    → (make_room (correct_high (a, d) r)).1.config ≡ r.config
unfolding make_room correct_high
same_config o a d r = ground arith

pushed_back-IsValid :
    (samples : List ℕ) (r : PeriodRing)
    → HasRoom r
    → length samples ≡ period_samples r.config
    → IsValid (record r {
      queue = r.queue ++ (samples ∷ []);
      counts = record (r.counts) { pushed = r.counts.pushed + 1 };
    })
pushed_back-IsValid samples r h e =
    let v = h.opening in
    record {
      positive = v.positive;
      fits = omega (arith, h.room, length-append r.queue (samples ∷ []));
      balanced = omega (arith, v.balanced, length-append r.queue (samples ∷ []));
      spaced_high = v.spaced_high;
      spaced_low = v.spaced_low;
      whole =
          All-append (λ q. length q ≡ period_samples r.config) r.queue (samples ∷ []) v.whole
            (e, tt);
    }

eq-== : (a b : ℕ) → a ≡ b → (a == b) ≡ true
eq-== a b h = ground arith

pub push_whole :
    (samples : List ℕ) (r : PeriodRing)
    → IsValid r
    → length samples ≡ period_samples r.config
    → (o : PushOutcome) × (r' : PeriodRing) × (push samples r ≡ some (o, r'))
      × IsValid r'
      × (r'.config ≡ r.config)
unfolding push
push_whole samples r v e =
    let (a, d) = on_push (length r.queue) r.drift in
    let opened = correct_high-IsOpening a d r (on_push-Pushes (length r.queue) r.drift) v in
    let (o, c) = correct_high (a, d) r in
    let r' = (make_room (o, c)).1 in
    let same = same_config o a d r in
    (
      (make_room (o, c)).0,
      record r' {
        queue = r'.queue ++ (samples ∷ []);
        counts = record (r'.counts) { pushed = r'.counts.pushed + 1 };
      },
      rw (eq-== _ _ e) refl,
      pushed_back-IsValid samples r' (make_room-HasRoom o c opened)
          (e ∙ ap period_samples (sym same)),
      same,
    )
