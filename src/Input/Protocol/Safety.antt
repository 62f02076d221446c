-- ===== src/Input/Protocol/Safety.antt =====
-- What holds under every interleaving: src/input.
use nano_kvm_usb_rs.Prelude.{
  ℕ, ◌+◌, ◌*◌, ◌≤◌, List, [], ◌∷◌, Bool, true, false, All, if◌then◌else◌, length, arith, ◌≡◌, refl,
  sym, subst,
}
use nano_kvm_usb_rs.Input.Queue.{
  Queue, Entry, retain_after, drain_upto, pop, note_reason, count_barriers,
}
use nano_kvm_usb_rs.Input.Queue
use nano_kvm_usb_rs.Input.Queue.Invariant.{new-IsValid}
use nano_kvm_usb_rs.Input.Queue.Drain.{length-le-bound}
use nano_kvm_usb_rs.Input.Shared.{Shared, mark_link_down, new}
use nano_kvm_usb_rs.Input.Writer.{should_exit}
use nano_kvm_usb_rs.Input.Protocol.{
  Phase, idle, writing, exited, System, Move, exits, Step, call, move, Reach, here, next,
}
use nano_kvm_usb_rs.Input.Protocol.Invariant.{
  IsSound, Agrees, IsConsistent, Call-IsSound, kept-IsSound,
}
use nano_kvm_usb_rs.Input.Protocol.Calls.{Call-Spares, Agrees-Spares}
use nano_kvm_usb_rs.Input.Protocol.Moves.{Move-consistent}

Step-IsConsistent : {y z : System} → Step y z → IsConsistent y → IsConsistent z
Step-IsConsistent (call s t p c) v = record {
  sound = Call-IsSound c v.sound;
  agrees = Agrees-Spares p s t (Call-Spares c v.sound) v.agrees;
}
Step-IsConsistent (move s t p q m) v =
    let (w, a) = Move-consistent m v.sound v.agrees in record { sound = w; agrees = a }

-- From a consistent system every sequence of calls and writer sections, in any order, leads to a
-- consistent one.
pub Reach-IsConsistent : {y z : System} → IsConsistent y → Reach y z → IsConsistent z
Reach-IsConsistent v here = v
Reach-IsConsistent v (next r s) = Step-IsConsistent s (Reach-IsConsistent v r)

nothing_queued : (n : ℕ) → All (λ e. e.epoch ≤ 0) (Queue.new n).entries
unfolding Queue.new
nothing_queued n = tt

nothing_fresh : (n : ℕ) → All (λ e. 0 ≡ e.epoch) (Queue.new n).entries
unfolding Queue.new
nothing_fresh n = tt

Agrees-at :
    (p : Phase) (s : Shared) {e : Entry} → Agrees p s → p ≡ writing e → e.epoch ≡ s.acked_epoch
Agrees-at p s a h = subst (λ q. Agrees q s) h a

All-sym : (k : ℕ) (es : List Entry) → All (λ e. k ≡ e.epoch) es → All (λ e. e.epoch ≡ k) es
All-sym k [] a = tt
All-sym k (e ∷ es) a = (sym a.0, All-sym k es a.1)

both_flags :
    (d c : Bool)
    → (if d then (if c then false else true) else false) ≡ true
    → (d ≡ true) × (c ≡ false)
both_flags d c h = ground arith

exit_sound :
    {s t : Shared}
    → Move s idle t exited
    → IsSound s
    → (t.acked_epoch ≡ t.requested_epoch) × (t.engaged ≡ false)
unfolding should_exit
exit_sound (exits s h) v =
    let (d, c) = both_flags s.shutting_down s.cancel h in (v.armed c, v.closed d)

-- `spawn`, which is handed an open link.
abbrev pub spawned : ℕ → System
spawned max_barriers = record { shared = new max_barriers; phase = idle }

pub spawned-IsConsistent : (n : ℕ) → IsConsistent (spawned n)
unfolding new
spawned-IsConsistent n = record {
  sound = record {
    queue = new-IsValid n;
    acked_le = omega arith;
    armed = λ _. refl;
    owed = λ z. cc;
    free = λ _. refl;
    closed = λ z. cc;
    upto = nothing_queued n;
    fresh = λ _. nothing_fresh n;
  };
  agrees = tt;
}

-- How `start` begins: with an open link (`spawn`), or with none (`spawn_with_source`).
pub data Started : System → Type 0 where
  with_link : (n : ℕ) → Started (spawned n)
  with_source : (n now : ℕ) → Started (record { shared = mark_link_down now (new n); phase = idle })

pub Started-IsConsistent : {y : System} → Started y → IsConsistent y
unfolding mark_link_down
Started-IsConsistent (with_link n) = spawned-IsConsistent n
Started-IsConsistent (with_source n now) = record {
  sound =
      kept-IsSound (new n) _ (refl, refl, refl, refl, refl, refl, λ z. cc)
        (spawned-IsConsistent n).sound;
  agrees = tt;
}

-- In every state that the input path can reach, an entry whose reports are being written belongs to the
-- acknowledged session: no entry of a session that a release has ended reaches the target after it.
pub written-current :
    {y : System} (st : Started y) (z : System) (e : Entry)
    → Reach y z
    → z.phase ≡ writing e
    → e.epoch ≡ z.shared.acked_epoch
written-current st z e r p =
    Agrees-at z.phase z.shared (Reach-IsConsistent (Started-IsConsistent st) r).agrees p

-- In every reachable state where input is accepted and the link is up, no release is owed, every
-- queued entry is of the running session and the queue holds at most `2 * max_barriers + 1` entries.
pub engaged-clean :
    {y : System} (st : Started y) (z : System)
    → Reach y z
    → z.shared.engaged ≡ true
    → z.shared.link_down ≡ false
    → (z.shared.acked_epoch ≡ z.shared.requested_epoch)
      × All (λ e. z.shared.requested_epoch ≡ e.epoch) z.shared.queue.entries
      × (length z.shared.queue.entries ≤ 2 * z.shared.queue.max_barriers + 1)
engaged-clean st z r g l =
    let v = (Reach-IsConsistent (Started-IsConsistent st) r).sound in
    let same = v.armed (v.free g) in
    (
      same,
      subst (λ k. All (λ e. k ≡ e.epoch) z.shared.queue.entries) same (v.fresh l),
      length-le-bound z.shared.queue z.shared.acked_epoch v.queue
          (All-sym z.shared.acked_epoch z.shared.queue.entries (v.fresh l)),
    )

-- The writer returns from `run` only when no release is owed: every trigger up to then has been
-- acknowledged.
pub exit-acknowledged :
    {y : System} (st : Started y) {s t : Shared}
    → Reach y (record { shared = s; phase = idle })
    → Move s idle t exited
    → (t.acked_epoch ≡ t.requested_epoch) × (t.engaged ≡ false)
exit-acknowledged st r m = exit_sound m (Reach-IsConsistent (Started-IsConsistent st) r).sound
