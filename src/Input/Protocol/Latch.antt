-- ===== src/Input/Protocol/Latch.antt =====
-- src/input/writer.rs: the sections in which the writer latches a release and acknowledges it.
use nano_kvm_usb_rs.Prelude.{
  ℕ, ◌≤◌, List, [], ◌∷◌, false, Option, none, some, All, arith, ◌≡◌, refl,
}
use nano_kvm_usb_rs.Input.Stats.{Counters}
use nano_kvm_usb_rs.Input.Queue.{
  Queue, Entry, retain_after, drain_upto, pop, note_reason, count_barriers,
}
use nano_kvm_usb_rs.Input.Queue
use nano_kvm_usb_rs.Input.Queue.Invariant
use nano_kvm_usb_rs.Input.Queue.Invariant.{new-IsValid}
use nano_kvm_usb_rs.Input.Queue.Drain.{drain_upto-IsValid}
use nano_kvm_usb_rs.Input.Shared.{Shared, raise, begin_reconnect}
use nano_kvm_usb_rs.Input.Writer.{latch, acknowledge}
use nano_kvm_usb_rs.Input.Protocol.{HasRoom}
use nano_kvm_usb_rs.Input.Protocol.Invariant.{IsSound, Owes, both}

retain_none :
    (k n : ℕ) (es : List Entry) → n ≤ k → All (λ e. e.epoch ≤ n) es → retain_after k es ≡ []
unfolding retain_after
retain_none k n [] h a = refl
retain_none k n (e ∷ es) h a = ground (arith, a.0, retain_none k n es h a.1)

All-mono :
    (m n : ℕ) (es : List Entry) → m ≤ n → All (λ e. e.epoch ≤ m) es → All (λ e. e.epoch ≤ n) es
All-mono m n [] h a = tt
All-mono m n (e ∷ es) h a = (omega (arith, a.0), All-mono m n es h a.1)

-- Draining through an epoch that is not below the acknowledged one leaves nothing.
pub drain_upto-empty :
    (k : ℕ) (s : Shared) (q : Queue) (c : Counters)
    → IsSound s
    → q.entries ≡ s.queue.entries
    → s.acked_epoch ≤ k
    → (drain_upto k q c).1.entries ≡ []
unfolding drain_upto
drain_upto-empty k s q c v e h = rw e (retain_none k s.acked_epoch s.queue.entries h v.upto)

-- The state after a drain, with whatever counters.
pub drained-IsSound :
    (s : Shared) (q : Queue) (c : Counters)
    → Queue.Invariant.IsValid q
    → q.entries ≡ []
    → IsSound s
    → IsSound (record s { queue = q; counters = c })
drained-IsSound s q c w e v = record {
  queue = w;
  acked_le = v.acked_le;
  armed = v.armed;
  owed = v.owed;
  free = v.free;
  closed = v.closed;
  upto = rw e tt;
  fresh = λ _. rw e tt;
}

untaken-IsValid :
    (q : Queue)
    → Queue.Invariant.IsValid q
    → Queue.Invariant.IsValid (record q { pending_reason = none })
untaken-IsValid q v = record {
  counted = v.counted;
  bounded = v.bounded;
  positive = v.positive;
  linked = v.linked;
}

pub latch_sound : (s : Shared) → IsSound s → IsSound (latch s).1 × ((latch s).1.queue.entries ≡ [])
unfolding latch
latch_sound s v =
    let q = record (s.queue) { pending_reason = none } in
    let gone = drain_upto-empty s.requested_epoch s q s.counters v refl v.acked_le in
    (
      drained-IsSound s _ _
          (drain_upto-IsValid s.requested_epoch q s.counters (untaken-IsValid s.queue v.queue)) gone
          v,
      gone,
    )

pub acknowledge-IsSound :
    (e : ℕ) (s : Shared)
    → IsSound s
    → Owes e s
    → (s.link_down ≡ false → s.queue.entries ≡ [])
    → IsSound (acknowledge e s)
unfolding acknowledge
acknowledge-IsSound e s v o n = record {
  queue = v.queue;
  acked_le = o.below;
  armed = λ h. ground (arith, o.armed);
  owed = λ h. ground (arith, o.below);
  free = λ h. absurd (both s.cancel o.armed (v.free h));
  closed = v.closed;
  upto = All-mono s.acked_epoch e s.queue.entries (omega (arith, o.above)) v.upto;
  fresh = λ h. rw (n h) tt;
}

pub commission-raise :
    (s : Shared) → HasRoom s → IsSound s → Owes (begin_reconnect s).0.0 (begin_reconnect s).1
unfolding begin_reconnect raise
commission-raise s h v = record {
  armed = refl;
  above = omega (arith, v.acked_le);
  below = omega arith;
}

pub nothing : {e : Entry} → ◌≡◌ {A = Option Entry} none (some e) → ⊥
nothing h = cc

pub first : {d e : Entry} → ◌≡◌ {A = Option Entry} (some d) (some e) → d ≡ e
first h = cc
