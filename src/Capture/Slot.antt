-- ===== src/Capture/Slot.antt =====
-- src/capture/handoff.rs: the slot that holds one pending value. Each method is one critical section;
-- the condition variable has no state of its own.
pub mod Fate
pub mod Wait
use nano_kvm_usb_rs.Prelude.{
  ℕ, ◌+◌, List, [], ◌∷◌, Bool, true, false, Option, none, some, if◌then◌else◌,
}

module _ {ℓ} (A : Type ℓ) where
  pub record Slot : Type ℓ where
    pub value : Option A
    pub closed : Bool
    pub dropped : ℕ

module _ {ℓ} (A : Type ℓ) where
  -- A call on the slot: of another thread, while a consumer waits with the lock released.
  pub data Call : Type ℓ where
    puts : A → Call
    takes : Call
    closes : Call

module _ {ℓ} {A : Type ℓ} where
  -- `Slot::new`.
  abbrev pub new : Slot A
  new = record { value = none; closed = false; dropped = 0 }

  -- The value handed back, and the slot. A `u64` counts the displaced values and is not wrapped.
  unfoldable pub put : A → Slot A → Option A × Slot A
  put v s = if s.closed then (some v, s) else elim s.value [
    | none ↦ (none, record s { value = some v })
    | some old ↦ (some old, record s { value = some v; dropped = s.dropped + 1 })
  ]

  unfoldable pub take : Slot A → Option A × Slot A
  take s = (s.value, record s { value = none })

  unfoldable pub close : Slot A → Slot A
  close s = record s { closed = true; value = none }

  abbrev pub is_pending : Slot A → Bool
  is_pending s = elim s.value [ none ↦ false | some v ↦ true ]

  unfoldable pub call : Call A → Slot A → Slot A
  unfolding put take close
  call (puts v) s = (put v s).1
  call takes s = (take s).1
  call closes s = close s

  unfoldable pub calls : List (Call A) → Slot A → Slot A
  calls [] s = s
  calls (c ∷ cs) s = calls cs (call c s)

  -- The three tests of a round, where `later` is what the rounds behind it come to.
  abbrev pub round_of :
      Option A → Bool → Slot A → Option (Option A) × Slot A → Option (Option A) × Slot A
  round_of (some v) expired s later = (some (some v), record s { value = none })
  round_of none expired s later =
      if s.closed then (some none, s) else if expired then (some none, s) else later

  -- The loop of `wait_take`. A round says whether the deadline has passed and what the other threads
  -- do before the wait returns; `none` when the rounds end with the consumer still waiting.
  unfoldable pub wait_take : List (Bool × List (Call A)) → Slot A → Option (Option A) × Slot A
  wait_take [] s = (none, s)
  wait_take ((expired, others) ∷ rounds) s =
      round_of s.value expired s (wait_take rounds (calls others s))
