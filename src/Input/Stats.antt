-- ===== src/Input/Stats.antt =====
-- src/input/stats.rs: release reasons and outcomes, and the counters. Times are nanoseconds.
use nano_kvm_usb_rs.Prelude.{ℕ, ◌+◌, ◌-◌, ◌%◌, ◌^◌, max, min}

pub data ReleaseReason : Type 0 where
  focus_lost capture_released user_requested overflow link_down reconnected shutdown : ReleaseReason

unfoldable pub severity : ReleaseReason → ℕ
severity shutdown = 3
severity link_down = 2
severity reconnected = 2
severity overflow = 1
severity focus_lost = 0
severity capture_released = 0
severity user_requested = 0

pub data ReleaseOutcome : Type 0 where
  submitted unsent : ReleaseOutcome

pub record ReleaseRecord : Type 0 where
  pub epoch : ℕ
  pub reason : ReleaseReason
  pub outcome : ReleaseOutcome

pub record Counters : Type 0 where
  pub queue_depth : ℕ
  pub max_queue_depth : ℕ
  pub barrier_depth : ℕ
  pub max_barrier_depth : ℕ
  pub abs_replaced : ℕ
  pub rel_summed : ℕ
  pub wheel_summed : ℕ
  pub kb_reports : ℕ
  pub abs_reports : ℕ
  pub rel_reports : ℕ
  pub rel_truncated : ℕ
  pub device_errors : ℕ
  pub timeouts : ℕ
  pub overflows : ℕ
  pub cancellations : ℕ
  pub stale_discarded : ℕ
  pub reconnects : ℕ
  pub reconnect_attempts : ℕ
  pub queue_discarded_on_reconnect : ℕ
  pub max_time_in_queue_ns : ℕ
  pub last_time_in_queue_ns : ℕ

-- `Counters::default`.
abbrev pub no_counts : Counters
no_counts = record {
  queue_depth = 0;
  max_queue_depth = 0;
  barrier_depth = 0;
  max_barrier_depth = 0;
  abs_replaced = 0;
  rel_summed = 0;
  wheel_summed = 0;
  kb_reports = 0;
  abs_reports = 0;
  rel_reports = 0;
  rel_truncated = 0;
  device_errors = 0;
  timeouts = 0;
  overflows = 0;
  cancellations = 0;
  stale_discarded = 0;
  reconnects = 0;
  reconnect_attempts = 0;
  queue_discarded_on_reconnect = 0;
  max_time_in_queue_ns = 0;
  last_time_in_queue_ns = 0;
}

-- `Counters::bump`: `fetch_add` on an `AtomicU64` wraps.
abbrev pub bump : ℕ → ℕ
bump n = (n + 1) % 2 ^ 64

unfoldable pub set_depth : ℕ → ℕ → Counters → Counters
set_depth depth barriers c = record c {
  queue_depth = depth;
  max_queue_depth = max c.max_queue_depth depth;
  barrier_depth = barriers;
  max_barrier_depth = max c.max_barrier_depth barriers;
}

-- `u64::try_from(…).unwrap_or(u64::MAX)`.
unfoldable pub record_time_in_queue : ℕ → Counters → Counters
record_time_in_queue waited c =
    let ns = min waited (2 ^ 64 - 1) in
    record c { last_time_in_queue_ns = ns; max_time_in_queue_ns = max c.max_time_in_queue_ns ns }
