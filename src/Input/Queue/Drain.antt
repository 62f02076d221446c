-- ===== src/Input/Queue/Drain.antt =====
-- Taking entries out of the input queue, and its bound: src/input/queue.rs.
use nano_kvm_usb_rs.Prelude.{
  ℕ, ◌+◌, ◌-◌, ◌*◌, ◌≤◌, ◌<◌, List, [], ◌∷◌, Option, ltb, if◌then◌else◌, length, All, arith, ◌≡◌,
  refl, by_test, leb, ◌==◌, inl, inr, ltb→lt, Bool-cases,
}
use nano_kvm_usb_rs.Input.Stats.{Counters, ReleaseReason}
use nano_kvm_usb_rs.Input.Queue.{
  Queue, Entry, is_barrier, pop, retain_after, count_barriers, drain_upto,
}
use nano_kvm_usb_rs.Input.Queue.Invariant.{IsValid, AreLinked}

AreLinked-tail : (e : Entry) (es : List Entry) → AreLinked (e ∷ es) → AreLinked es
AreLinked-tail e [] l = tt
AreLinked-tail e (d ∷ r) l = l.2

pop_cons-IsValid :
    (e : Entry) (es : List Entry) (b m : ℕ) (r : Option ReleaseReason)
    → IsValid (record { entries = e ∷ es; barriers = b; max_barriers = m; pending_reason = r })
    → IsValid (record {
      entries = es;
      barriers = if is_barrier e.kind then b - 1 else b;
      max_barriers = m;
      pending_reason = r;
    })
unfolding count_barriers
pop_cons-IsValid e es b m r v =
    ground (arith, v.counted, v.bounded, v.positive, AreLinked-tail e es v.linked)

pop_list-IsValid :
    (es : List Entry) (q : Queue) (c : Counters) → q.entries ≡ es → IsValid q → IsValid (pop q c).1
unfolding pop
pop_list-IsValid [] q c e v = rw (e, pop) v
pop_list-IsValid (x ∷ es) q c e v =
    rw (e, pop) (pop_cons-IsValid x es q.barriers q.max_barriers q.pending_reason (rw e at v))

pub pop-IsValid : (q : Queue) (c : Counters) → IsValid q → IsValid (pop q c).1
pop-IsValid q c v = pop_list-IsValid q.entries q c refl v

-- In a linked queue all entries behind a young one are young.
retain_all :
    (k : ℕ) (e : Entry) (es : List Entry)
    → AreLinked (e ∷ es)
    → k < e.epoch
    → retain_after k (e ∷ es) ≡ e ∷ es
unfolding retain_after
retain_all k e [] l h = ground arith
retain_all k e (d ∷ r) l h = ground (arith, l.0, retain_all k d r l.2)

AreLinked-retain_after : (k : ℕ) (es : List Entry) → AreLinked es → AreLinked (retain_after k es)
unfolding retain_after
AreLinked-retain_after k [] l = tt
AreLinked-retain_after k (e ∷ es) l = elim (Bool-cases (ltb k e.epoch)) [
  | inl h ↦ rw (retain_all k e es l (ltb→lt _ _ h)) l
  | inr h ↦ rw h (AreLinked-retain_after k es (AreLinked-tail e es l))
]

count-retain_after :
    (k : ℕ) (es : List Entry) → count_barriers (retain_after k es) ≤ count_barriers es
unfolding retain_after count_barriers
count-retain_after k [] = omega arith
count-retain_after k (e ∷ es) = ground (arith, count-retain_after k es)

-- The barriers are counted again exactly, and no two motion runs of one epoch become adjacent.
pub drain_upto-IsValid :
    (k : ℕ) (q : Queue) (c : Counters) → IsValid q → IsValid (drain_upto k q c).1
unfolding drain_upto
drain_upto-IsValid k q c v = record {
  counted = refl;
  bounded = omega (arith, v.counted, v.bounded, count-retain_after k q.entries);
  positive = v.positive;
  linked = AreLinked-retain_after k q.entries v.linked;
}

-- How many entries are of an epoch or an older one.
abbrev pub count_upto : ℕ → List Entry → ℕ
count_upto k [] = 0
count_upto k (e ∷ es) = (if leb e.epoch k then 1 else 0) + count_upto k es

retained-younger : (k : ℕ) (es : List Entry) → All (λ e. k < e.epoch) (retain_after k es)
unfolding retain_after
retained-younger k [] = tt
retained-younger k (e ∷ es) =
    by_test (ltb k e.epoch) (e ∷ retain_after k es) (retain_after k es) (All (λ d. k < d.epoch))
      (λ h. (ltb→lt _ _ h, retained-younger k es)) (λ h. retained-younger k es)

-- The entries of one epoch, in their order.
abbrev pub of_epoch : ℕ → List Entry → List Entry
of_epoch n [] = []
of_epoch n (e ∷ es) = let rest = of_epoch n es in if e.epoch == n then e ∷ rest else rest

retained-of_epoch :
    (k n : ℕ) (es : List Entry) → k < n → of_epoch n (retain_after k es) ≡ of_epoch n es
unfolding retain_after
retained-of_epoch k n [] h = refl
retained-of_epoch k n (e ∷ es) h = ground (arith, retained-of_epoch k n es h)

discarded-count :
    (k : ℕ) (es : List Entry) → length (retain_after k es) + count_upto k es ≡ length es
unfolding retain_after
discarded-count k [] = omega arith
discarded-count k (e ∷ es) = ground (arith, discarded-count k es)

-- Discarding the entries up to an epoch keeps a valid queue valid: the barriers are counted again exactly, and no
-- two motion runs of one epoch become adjacent. No entry of that epoch or an older one is left, those of any younger
-- epoch are all left in their order, and the answer is the number of those that are discarded.
pub drain_upto-Discards :
    (k younger : ℕ) (q : Queue) (c : Counters)
    → IsValid q
    → k < younger
    → let r = drain_upto k q c in
      IsValid r.1
      × All (λ e. k < e.epoch) r.1.entries
      × (of_epoch younger r.1.entries ≡ of_epoch younger q.entries)
      × (r.0 ≡ count_upto k q.entries)
unfolding drain_upto
drain_upto-Discards k younger q c v h = (
  drain_upto-IsValid k q c v,
  retained-younger k q.entries,
  retained-of_epoch k younger q.entries h,
  omega (arith, discarded-count k q.entries),
)

-- The bound: with entries of one epoch only, at most one run stands between two transitions.
length_bound :
    (epoch : ℕ) (e : Entry) (es : List Entry)
    → AreLinked (e ∷ es)
    → All (λ d. d.epoch ≡ epoch) (e ∷ es)
    → length (e ∷ es) + (if is_barrier e.kind then 1 else 0) ≤ 2 * count_barriers (e ∷ es) + 1
unfolding count_barriers
length_bound epoch e [] l a = ground arith
length_bound epoch e (d ∷ r) l a = ground (arith, l.1, a.0, a.1.0, length_bound epoch d r l.2 a.1)

bound_list :
    (epoch : ℕ) (es : List Entry)
    → AreLinked es
    → All (λ d. d.epoch ≡ epoch) es
    → length es ≤ 2 * count_barriers es + 1
unfolding count_barriers
bound_list epoch [] l a = omega arith
bound_list epoch (e ∷ es) l a = omega (arith, length_bound epoch e es l a)

-- A valid queue whose entries carry one epoch holds at most `2 * max_barriers + 1` of them.
pub length-le-bound :
    (q : Queue) (epoch : ℕ)
    → IsValid q
    → All (λ d. d.epoch ≡ epoch) q.entries
    → length q.entries ≤ 2 * q.max_barriers + 1
length-le-bound q epoch v a =
    omega (arith, v.counted, v.bounded, bound_list epoch q.entries v.linked a)
