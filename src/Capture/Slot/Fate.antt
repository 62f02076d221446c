-- ===== src/Capture/Slot/Fate.antt =====
-- What becomes of every value put into the slot: src/capture/handoff.rs.
use nano_kvm_usb_rs.Prelude.{ℕ, ◌+◌, List, [], ◌∷◌, Option, none, some, if◌then◌else◌, arith, ◌≡◌}
use nano_kvm_usb_rs.Capture.Slot.{Slot, Call, puts, takes, closes, put, take, close, call, calls}

module _ {ℓ} {A : Type ℓ} (weight : A → ℕ) where
  abbrev pub weigh : Option A → ℕ
  weigh none = 0
  weigh (some v) = weight v

  -- The weight of all that is put.
  abbrev pub offered : List (Call A) → ℕ
  offered [] = 0
  offered (puts v ∷ cs) = weight v + offered cs
  offered (_ ∷ cs) = offered cs

  -- What consumers were given.
  abbrev pub consumed : List (Call A) → Slot A → ℕ
  consumed [] s = 0
  consumed (takes ∷ cs) s = weigh (take s).0 + consumed cs (take s).1
  consumed (c ∷ cs) s = consumed cs (call c s)

  -- What `put` handed back of the values that it displaced.
  abbrev pub displaced : List (Call A) → Slot A → ℕ
  displaced [] s = 0
  displaced (puts v ∷ cs) s = (if s.closed then 0 else weigh (put v s).0) + displaced cs (put v s).1
  displaced (c ∷ cs) s = displaced cs (call c s)

  -- What `put` refused, the slot being closed.
  abbrev pub refused : List (Call A) → Slot A → ℕ
  refused [] s = 0
  refused (puts v ∷ cs) s = (if s.closed then weigh (put v s).0 else 0) + refused cs (put v s).1
  refused (c ∷ cs) s = refused cs (call c s)

  -- What `close` dropped.
  abbrev pub discarded : List (Call A) → Slot A → ℕ
  discarded [] s = 0
  discarded (closes ∷ cs) s = weigh s.value + discarded cs (close s)
  discarded (c ∷ cs) s = discarded cs (call c s)

  -- No value is lost and none is made: whatever the calls and their order, and however values are
  -- weighed, those pending and put are those consumed, displaced, refused, discarded or pending.
  pub calls-conserve :
      (cs : List (Call A)) (s : Slot A)
      → weigh s.value + offered cs
        ≡ consumed cs s + displaced cs s + refused cs s + discarded cs s + weigh (calls cs s).value
  unfolding calls call put take close
  calls-conserve [] s = omega arith
  calls-conserve (puts v ∷ cs) s = ground (arith, calls-conserve cs (put v s).1)
  calls-conserve (takes ∷ cs) s = ground (arith, calls-conserve cs (take s).1)
  calls-conserve (closes ∷ cs) s = ground (arith, calls-conserve cs (close s))

module _ {ℓ} {A : Type ℓ} where
  -- The counter counts the values that `put` displaced, and not those that a closed slot refused.
  pub dropped-counts :
      (cs : List (Call A)) (s : Slot A) → (calls cs s).dropped ≡ s.dropped + displaced (λ v. 1) cs s
  unfolding calls call put take close
  dropped-counts [] s = omega arith
  dropped-counts (puts v ∷ cs) s = ground (arith, dropped-counts cs (put v s).1)
  dropped-counts (takes ∷ cs) s = omega (arith, dropped-counts cs (take s).1)
  dropped-counts (closes ∷ cs) s = omega (arith, dropped-counts cs (close s))
