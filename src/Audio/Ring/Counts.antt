-- ===== src/Audio/Ring/Counts.antt =====
-- src/audio/ring.rs: the counts of the ring, over any sequence of transfers.
use nano_kvm_usb_rs.Prelude.{
  ℕ, ◌+◌, ◌≤◌, List, [], ◌∷◌, Option, none, some, length, All, arith, ◌≡◌, refl, sym, subst,
}
use nano_kvm_usb_rs.Audio.Ring.{
  RingConfig, DriftPolicy, PeriodRing, on_pop, reset, period_samples, DriftAction, hold, drop_one,
  insert_one, push, pop, pop_with, new, with_drift, policy_for,
}
use nano_kvm_usb_rs.Audio.Ring.Pushing.{IsValid, mul_suc, Pops, on_pop-Pops, push_whole}

-- A ring at each field, for the cases of its queue.
abbrev with_queue : List (List ℕ) → PeriodRing → PeriodRing
with_queue q r = record r { queue = q }

underran-IsValid :
    (d : DriftPolicy) (r : PeriodRing)
    → d.hold ≡ r.drift.hold
    → d.high_streak ≡ r.drift.high_streak
    → IsValid (with_queue [] r)
    → IsValid (record r {
      queue = [];
      drift = reset d;
      counts = record (r.counts) { underruns = r.counts.underruns + 1 };
    })
unfolding reset
underran-IsValid d r same other v = record {
  positive = v.positive;
  fits = v.fits;
  balanced = v.balanced;
  spaced_high = ground (arith, same, v.spaced_high);
  spaced_low = ground (arith, same, v.spaced_low);
  whole = tt;
}

played-IsValid :
    (d : DriftPolicy) (r : PeriodRing) (x : List ℕ) (xs : List (List ℕ))
    → d.hold ≡ r.drift.hold
    → d.high_streak ≡ r.drift.high_streak
    → d.low_streak ≤ r.drift.low_streak + 1
    → IsValid (with_queue (x ∷ xs) r)
    → IsValid (record r {
      queue = xs;
      drift = d;
      counts = record (r.counts) { popped = r.counts.popped + 1 };
    })
played-IsValid d r x xs same other fired v = record {
  positive = v.positive;
  fits = omega (arith, v.fits);
  balanced = omega (arith, v.balanced);
  spaced_high = ground (arith, same, other, v.spaced_high);
  spaced_low = ground (arith, same, fired, v.spaced_low);
  whole = v.whole.1;
}

pop_with-IsValid :
    (a : DriftAction) (d : DriftPolicy) (r : PeriodRing) (q : List (List ℕ))
    → Pops (length q) r.drift a d
    → IsValid (with_queue q r)
    → IsValid (pop_with (a, d) (with_queue q r)).1
unfolding pop_with
pop_with-IsValid hold d r [] p v = underran-IsValid d r p.same p.other v
pop_with-IsValid drop_one d r [] p v = underran-IsValid d r p.same p.other v
pop_with-IsValid insert_one d r [] p v = underran-IsValid d r p.same p.other v
pop_with-IsValid hold d r (x ∷ xs) p v =
    played-IsValid d r x xs p.same p.other (omega (arith, p.fired)) v
pop_with-IsValid drop_one d r (x ∷ xs) p v =
    played-IsValid d r x xs p.same p.other (omega (arith, p.fired)) v
pop_with-IsValid insert_one d r (x ∷ xs) p v = record {
  positive = v.positive;
  fits = v.fits;
  balanced = v.balanced;
  spaced_high = ground (arith, p.same, p.other, v.spaced_high);
  spaced_low =
      ground (arith, p.same, p.fired, v.spaced_low, mul_suc r.counts.drift_inserts r.drift.hold);
  whole = v.whole;
}

pop-IsValid : (r : PeriodRing) → IsValid r → IsValid (pop r).1
unfolding pop
pop-IsValid r v =
    let (a, d) = on_pop (length r.queue) r.drift in
    pop_with-IsValid a d r r.queue (on_pop-Pops (length r.queue) r.drift) v

pop-config : (r : PeriodRing) → (pop r).1.config ≡ r.config
unfolding pop pop_with
pop-config r = ground arith

-- What the two halves of the pump do to the ring.
pub data Transfer : Type 0 where
  pushes : List ℕ → Transfer
  pops : Transfer

-- The transfers in order; `none` is the panic of a push.
unfoldable pub run : List Transfer → PeriodRing → Option PeriodRing
run [] r = some r
run (pushes samples ∷ ts) r = elim (push samples r) [ none ↦ none | some (o, r') ↦ run ts r' ]
run (pops ∷ ts) r = run ts (pop r).1

abbrev pub IsWhole : RingConfig → Transfer → Type 0
IsWhole cfg (pushes samples) = length samples ≡ period_samples cfg
IsWhole cfg pops = Unit

run_from :
    (ts : List Transfer) (r : PeriodRing)
    → IsValid r
    → All (IsWhole r.config) ts
    → (r' : PeriodRing) × (run ts r ≡ some r') × IsValid r'
unfolding run
run_from [] r v w = (r, refl, v)
run_from (pops ∷ ts) r v w =
    run_from ts (pop r).1 (pop-IsValid r v)
      (subst (λ c. All (IsWhole c) ts) (sym (pop-config r)) w.1)
run_from (pushes samples ∷ ts) r v w =
    let (o, r', e, v', same) = push_whole samples r v w.0 in
    let (last, ran, valid) = run_from ts r' v' (subst (λ c. All (IsWhole c) ts) (sym same) w.1) in
    (last, rw (e, run) ran, valid)

-- From a new ring of at least one period, every sequence of pops and of pushes of whole periods runs
-- through without a panic, and the ring then holds whole periods only and at most its configured
-- number; the periods pushed are those played, overrun, dropped for drift or still queued, and
-- there is at most one drift drop for every `hold` pushes and one insert for every `hold` pops.
pub run-IsValid :
    (cfg : RingConfig) (ts : List Transfer)
    → 1 ≤ cfg.periods
    → All (IsWhole cfg) ts
    → (r : PeriodRing) × (run ts (new cfg) ≡ some r) × IsValid r
unfolding new with_drift policy_for
run-IsValid cfg ts h w =
    run_from ts (new cfg)
      (record {
        positive = h;
        fits = omega arith;
        balanced = refl;
        spaced_high = omega arith;
        spaced_low = omega arith;
        whole = tt;
      })
      w
