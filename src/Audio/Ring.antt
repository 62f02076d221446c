-- ===== src/Audio/Ring.antt =====
-- src/audio/ring.rs: the bounded ring of PCM periods and its clock-drift policy. A `&mut self` is a
-- new value here; a sample is its bit pattern.
pub mod Pushing
pub mod Counts
pub mod Order
use nano_kvm_usb_rs.Prelude.{
  ℕ, zero, suc, ◌+◌, ◌-◌, ◌*◌, ◌/◌, ◌%◌, ◌^◌, min, max, List, [], ◌∷◌, ◌++◌, Bool, true, false,
  ◌&&◌, ◌||◌, not, ◌==◌, ltb, leb, if◌then◌else◌, length, replicate, Option, none, some,
}

abbrev pub sample_rate : ℕ
sample_rate = 48000

abbrev pub channels : ℕ
channels = 2

pub record RingConfig : Type 0 where
  pub periods : ℕ
  pub period_frames : ℕ

-- `RingConfig::default`.
abbrev pub default_config : RingConfig
default_config = record { periods = 8; period_frames = 480 }

unfoldable pub period_samples : RingConfig → ℕ
period_samples cfg = cfg.period_frames * channels

-- In nanoseconds, in `u64` arithmetic.
unfoldable pub depth : RingConfig → ℕ
depth cfg = ((cfg.periods * cfg.period_frames % 2 ^ 64) * 1000000000 % 2 ^ 64) / sample_rate

unfoldable pub silence : RingConfig → List ℕ
unfolding period_samples
silence cfg = replicate (period_samples cfg) 0

pub data DriftAction : Type 0 where
  hold drop_one insert_one : DriftAction

pub record DriftPolicy : Type 0 where
  pub high_water : ℕ
  pub low_water : ℕ
  pub hold : ℕ
  pub high_streak : ℕ
  pub low_streak : ℕ

-- `periods as u32 * 4` wraps as a release build does.
unfoldable pub policy_for : RingConfig → DriftPolicy
policy_for cfg = record {
  high_water = max (cfg.periods - 1) 1;
  low_water = 1;
  hold = max (cfg.periods * 4 % 2 ^ 32) 1;
  high_streak = 0;
  low_streak = 0;
}

unfoldable pub with_marks : ℕ → ℕ → ℕ → DriftPolicy
with_marks high_water low_water held = record {
  high_water = max high_water low_water;
  low_water = min low_water high_water;
  hold = max held 1;
  high_streak = 0;
  low_streak = 0;
}

-- A streak stays below `hold`, a `u32`, so its addition cannot wrap.
unfoldable pub on_push : ℕ → DriftPolicy → DriftAction × DriftPolicy
on_push level p =
    if ltb level p.high_water
    then (hold, record p { high_streak = 0 })
    else if leb p.hold (p.high_streak + 1)
    then (drop_one, record p { high_streak = 0 })
    else (hold, record p { high_streak = p.high_streak + 1 })

unfoldable pub on_pop : ℕ → DriftPolicy → DriftAction × DriftPolicy
on_pop level p =
    if ltb p.low_water level
    then (hold, record p { low_streak = 0 })
    else if leb p.hold (p.low_streak + 1)
    then (insert_one, record p { low_streak = 0 })
    else (hold, record p { low_streak = p.low_streak + 1 })

unfoldable pub reset : DriftPolicy → DriftPolicy
reset p = record p { high_streak = 0; low_streak = 0 }

-- A counter counts single periods and is not wrapped: at 100 a second a `u64` lasts for ever.
pub record RingCounts : Type 0 where
  pub pushed : ℕ
  pub popped : ℕ
  pub overruns : ℕ
  pub underruns : ℕ
  pub drift_drops : ℕ
  pub drift_inserts : ℕ

abbrev pub no_counts : RingCounts
no_counts = record {
  pushed = 0;
  popped = 0;
  overruns = 0;
  underruns = 0;
  drift_drops = 0;
  drift_inserts = 0;
}

unfoldable pub any : RingCounts → Bool
any c =
    not (c.overruns == 0)
    || (not (c.underruns == 0) || (not (c.drift_drops == 0) || not (c.drift_inserts == 0)))

pub data PushOutcome : Type 0 where
  queued drift_dropped overran : PushOutcome

pub data PopOutcome : Type 0 where
  period underran drift_inserted : PopOutcome

pub record PeriodRing : Type 0 where
  pub config : RingConfig
  pub drift : DriftPolicy
  pub queue : List (List ℕ)
  pub counts : RingCounts

unfoldable pub with_drift : RingConfig → DriftPolicy → PeriodRing
with_drift cfg policy = record { config = cfg; drift = policy; queue = []; counts = no_counts }

unfoldable pub new : RingConfig → PeriodRing
unfolding with_drift policy_for
new cfg = with_drift cfg (policy_for cfg)

unfoldable pub is_full : PeriodRing → Bool
is_full r = leb r.config.periods (length r.queue)

abbrev pub is_empty : List (List ℕ) → Bool
is_empty [] = true
is_empty (p ∷ ps) = false

-- `pop_front` whose value is not used.
abbrev pub drop_front : List (List ℕ) → List (List ℕ)
drop_front [] = []
drop_front (p ∷ ps) = ps

abbrev pub is_drop : DriftAction → Bool
is_drop drop_one = true
is_drop hold = false
is_drop insert_one = false

abbrev pub is_insert : DriftAction → Bool
is_insert insert_one = true
is_insert hold = false
is_insert drop_one = false

-- Whether a correction is asked for and the ring is off its walls.
unfoldable pub corrects : DriftAction → PeriodRing → Bool
unfolding is_full
corrects wanted r = is_drop wanted && (not (is_empty r.queue) && not (is_full r))

-- The first `if` of `push`: the drift correction, from the answer of the policy.
unfoldable pub correct_high : DriftAction × DriftPolicy → PeriodRing → PushOutcome × PeriodRing
unfolding corrects
correct_high (wanted, drift) r =
    if corrects wanted r
    then (
      drift_dropped,
      record r {
        drift = drift;
        queue = drop_front r.queue;
        counts = record (r.counts) { drift_drops = r.counts.drift_drops + 1 };
      },
    )
    else (queued, record r { drift = drift })

-- The second `if`: the overrun.
unfoldable pub make_room : PushOutcome × PeriodRing → PushOutcome × PeriodRing
unfolding is_full reset
make_room (outcome, r) =
    if is_full r
    then (
      overran,
      record r {
        queue = drop_front r.queue;
        counts = record (r.counts) { overruns = r.counts.overruns + 1 };
        drift = reset r.drift;
      },
    )
    else (outcome, r)

-- `none` is the panic of `assert_eq!`.
unfoldable pub push : List ℕ → PeriodRing → Option (PushOutcome × PeriodRing)
unfolding period_samples make_room correct_high on_push
push samples r =
    if length samples == period_samples r.config
    then (let (outcome, r') = make_room (correct_high (on_push (length r.queue) r.drift) r) in
        some (
          outcome,
          record r' {
            queue = r'.queue ++ (samples ∷ []);
            counts = record (r'.counts) { pushed = r'.counts.pushed + 1 };
          },
        ))
    else none

-- `pop`, from the answer of the policy.
unfoldable pub pop_with :
    DriftAction × DriftPolicy → PeriodRing → (List ℕ × PopOutcome) × PeriodRing
unfolding silence reset
pop_with (wanted, drift) r =
    if is_insert wanted && not (is_empty r.queue)
    then (
      (silence r.config, drift_inserted),
      record r {
        drift = drift;
        counts = record (r.counts) { drift_inserts = r.counts.drift_inserts + 1 };
      },
    )
    else elim r.queue [
      | p ∷ ps ↦ (
        (p, period),
        record r {
          drift = drift;
          queue = ps;
          counts = record (r.counts) { popped = r.counts.popped + 1 };
        },
      )
      | [] ↦ (
        (silence r.config, underran),
        record r {
          drift = reset drift;
          counts = record (r.counts) { underruns = r.counts.underruns + 1 };
        },
      )
    ]

unfoldable pub pop : PeriodRing → (List ℕ × PopOutcome) × PeriodRing
unfolding pop_with on_pop
pop r = pop_with (on_pop (length r.queue) r.drift) r
