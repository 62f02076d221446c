-- ===== src/Capture/Slot/Wait.antt =====
-- src/capture/handoff.rs: what a waiting consumer is given.
use nano_kvm_usb_rs.Prelude.{
  ℕ, zero, suc, ◌<◌, List, [], ◌∷◌, Bool, true, false, Option, none, some, length, ◌≡◌, refl, ◌⊎◌,
  inl, inr, arith, by_test, if◌then◌else◌,
}
use nano_kvm_usb_rs.Capture.Slot.{Slot, Call, calls, round_of, wait_take}

module _ {ℓ} {A : Type ℓ} where
  -- The slot when a round begins, and whether the deadline has passed then.
  abbrev pub slot_at : ℕ → List (Bool × List (Call A)) → Slot A → Slot A
  slot_at zero rounds s = s
  slot_at (suc k) [] s = s
  slot_at (suc k) ((expired, others) ∷ rounds) s = slot_at k rounds (calls others s)

  abbrev pub expired_at : ℕ → List (Bool × List (Call A)) → Bool
  expired_at k [] = false
  expired_at zero ((expired, others) ∷ rounds) = expired
  expired_at (suc k) ((expired, others) ∷ rounds) = expired_at k rounds

  -- Nothing to return for: no value, not closed, and not behind the deadline.
  abbrev pub Waits : Bool → Slot A → Type ℓ
  Waits expired s = (s.value ≡ none) × (s.closed ≡ false) × (expired ≡ false)

  abbrev pub WaitsUntil : ℕ → List (Bool × List (Call A)) → Slot A → Type ℓ
  WaitsUntil k rounds s = (i : ℕ) → i < k → Waits (expired_at i rounds) (slot_at i rounds s)

  -- What a wait returned, and when.
  abbrev pub Returned : List (Bool × List (Call A)) → Slot A → Option (Option A) × Slot A → Type ℓ
  Returned rounds s (some (some v), u) =
      (k : ℕ) × WaitsUntil k rounds s
      × ((slot_at k rounds s).value ≡ some v)
      × (u ≡ record (slot_at k rounds s) { value = none })
  Returned rounds s (some none, u) =
      (k : ℕ) × WaitsUntil k rounds s
      × ((slot_at k rounds s).value ≡ none)
      × (u ≡ slot_at k rounds s)
      × (((slot_at k rounds s).closed ≡ true) ⊎ (expired_at k rounds ≡ true))
  Returned rounds s (none, u) = WaitsUntil (length rounds) rounds s

  one_more :
      (k : ℕ) (expired : Bool) (others : List (Call A)) (rounds : List (Bool × List (Call A)))
      (s : Slot A)
      → Waits expired s
      → WaitsUntil k rounds (calls others s)
      → WaitsUntil (suc k) ((expired, others) ∷ rounds) s
  one_more k expired others rounds s now later zero h = now
  one_more k expired others rounds s now later (suc i) h = later i (omega arith)

  Returned-later :
      (expired : Bool) (others : List (Call A)) (rounds : List (Bool × List (Call A))) (s : Slot A)
      (out : Option (Option A) × Slot A)
      → Waits expired s
      → Returned rounds (calls others s) out
      → Returned ((expired, others) ∷ rounds) s out
  Returned-later expired others rounds s (some (some v), u) now (k, until, held, left) =
      (suc k, one_more k expired others rounds s now until, held, left)
  Returned-later expired others rounds s (some none, u) now (k, until, empty, left, why) =
      (suc k, one_more k expired others rounds s now until, empty, left, why)
  Returned-later expired others rounds s (none, u) now until =
      one_more (length rounds) expired others rounds s now until

  round-Returned :
      (o : Option A) (expired : Bool) (others : List (Call A))
      (rounds : List (Bool × List (Call A))) (s : Slot A) (later : Option (Option A) × Slot A)
      → s.value ≡ o
      → Returned rounds (calls others s) later
      → Returned ((expired, others) ∷ rounds) s (round_of o expired s later)
  round-Returned (some v) expired others rounds s later e r =
      (0, (λ i h. absurd (omega arith)), e, refl)
  round-Returned none expired others rounds s later e r =
      by_test s.closed (some none, s) (if expired then (some none, s) else later)
        (Returned ((expired, others) ∷ rounds) s)
        (λ c. (0, (λ i h. absurd (omega arith)), e, refl, inl c))
        (λ c.
          by_test expired (some none, s) later (Returned ((expired, others) ∷ rounds) s)
            (λ x. (0, (λ i h. absurd (omega arith)), e, refl, inr x))
            (λ x. Returned-later expired others rounds s later (e, c, x) r))

  -- A wait returns at the first round that has something to return for: the value that is in the slot then, which it
  -- takes out, also behind the deadline; or nothing, when the slot is empty and is closed or the deadline has passed.
  -- Until then there is neither, whatever other threads do while the lock is released.
  pub wait_take-Returned :
      (rounds : List (Bool × List (Call A))) (s : Slot A) → Returned rounds s (wait_take rounds s)
  unfolding wait_take
  wait_take-Returned [] s = λ i h. absurd (omega arith)
  wait_take-Returned ((expired, others) ∷ rounds) s =
      let later = wait_take rounds (calls others s) in
      round-Returned s.value expired others rounds s later refl
        (wait_take-Returned rounds (calls others s))
