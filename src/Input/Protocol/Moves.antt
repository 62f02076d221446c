-- ===== src/Input/Protocol/Moves.antt =====
-- src/input/writer.rs: each move of the writer keeps what holds between its places.
use nano_kvm_usb_rs.Prelude.{
  ℕ, ◌≤◌, List, [], ◌∷◌, true, false, ◌||◌, some, All, arith, ◌≡◌, refl, subst, inl, inr,
  Bool-cases,
}
use nano_kvm_usb_rs.Input.Stats.{ReleaseReason, submitted}
use nano_kvm_usb_rs.Proto.DeviceInfo.{DeviceInfo}
use nano_kvm_usb_rs.Input.Queue.{Entry, pop}
use nano_kvm_usb_rs.Input.Queue.Drain.{pop-IsValid, drain_upto-IsValid}
use nano_kvm_usb_rs.Input.Shared.{
  Shared, ReasonSlot, raise, begin_reconnect, mark_link_up, publish_device_info,
  note_info_refresh_failed,
}
use nano_kvm_usb_rs.Input.Writer.{
  latch, record_release, discard_queued, next_entry, is_discarded, count_discarded, note_dequeued,
  take_refresh,
}
use nano_kvm_usb_rs.Input.Protocol.{
  Phase, holding, Move, latches, releases, acknowledges, begins_commission, drains, fails_resync,
  rejects, accepts, dequeues, discards, writes, finishes, exits, takes_refresh, refuses_refresh,
  asks, publishes, fails_refresh,
}
use nano_kvm_usb_rs.Input.Protocol.Invariant.{
  IsSound, Owes, Agrees, kept-IsSound, raise-IsSound, both,
}
use nano_kvm_usb_rs.Input.Protocol.Latch.{
  drain_upto-empty, drained-IsSound, latch_sound, acknowledge-IsSound, commission-raise, nothing,
  first,
}

popped :
    (s : Shared) (e : Entry) (es : List Entry)
    → IsSound s
    → s.queue.entries ≡ es
    → (pop s.queue s.counters).0 ≡ some e
    → IsSound
        (record s { queue = (pop s.queue s.counters).1; counters = (pop s.queue s.counters).2 })
      × ((e.epoch ≤ s.acked_epoch) × (s.link_down ≡ false → s.acked_epoch ≡ e.epoch))
unfolding pop
popped s e [] v h g = absurd (nothing (rw (h, pop) at g))
popped s e (d ∷ es) v h g =
    let same : d ≡ e = first (rw (h, pop) at g) in
    let up : All (λ x. x.epoch ≤ s.acked_epoch) (d ∷ es) = rw h at v.upto in
    let fresh : s.link_down ≡ false → All (λ x. s.acked_epoch ≡ x.epoch) (d ∷ es) =
      λ z. rw h at (v.fresh z) in
    (
      record {
        queue = pop-IsValid s.queue s.counters v.queue;
        acked_le = v.acked_le;
        armed = v.armed;
        owed = v.owed;
        free = v.free;
        closed = v.closed;
        upto = rw (h, pop) up.1;
        fresh = λ z. rw (h, pop) (fresh z).1;
      },
      (
        subst (λ x. x.epoch ≤ s.acked_epoch) same up.0,
        λ z. subst (λ x. s.acked_epoch ≡ x.epoch) same (fresh z).0,
      ),
    )

latch-Owes : (s : Shared) → s.cancel ≡ true → IsSound s → Owes (latch s).0.0 (latch s).1
unfolding latch
latch-Owes s c v = record { armed = c; above = v.owed c; below = omega arith }

raised_link : (s : Shared) → s.link_down ≡ true → (begin_reconnect s).1.link_down ≡ true
unfolding begin_reconnect raise
raised_link s l = l

current :
    (s : Shared) (e : Entry)
    → Agrees (holding e) s
    → is_discarded e s ≡ false
    → e.epoch ≡ s.acked_epoch
unfolding is_discarded
current s e a h = ground (arith, a.0)

-- The link comes up with an empty queue.
linked_up :
    (s : Shared) (i : DeviceInfo) (r : ReleaseReason) (e : ℕ)
    → IsSound s
    → s.queue.entries ≡ []
    → IsSound
        (mark_link_up i (record_release (record { epoch = e; reason = r; outcome = submitted }) s))
unfolding mark_link_up record_release
linked_up s i r e v n = record {
  queue = v.queue;
  acked_le = v.acked_le;
  armed = v.armed;
  owed = v.owed;
  free = v.free;
  closed = v.closed;
  upto = v.upto;
  fresh = λ _. rw n tt;
}

next_entry_sound :
    (s : Shared) (e : Entry)
    → IsSound s
    → (next_entry s).0 ≡ some e
    → IsSound (next_entry s).1 × Agrees (holding e) (next_entry s).1
unfolding next_entry
next_entry_sound s e v h = elim (Bool-cases (s.cancel || (s.shutting_down || s.refresh_info))) [
  | inl b ↦ absurd (nothing (rw b at h))
  | inr b ↦ simp b (popped s e s.queue.entries v refl (simp b at h))
]

-- A move keeps the shared state sound, and leaves the writer where it agrees with it.
pub Move-consistent :
    {s t : Shared} {p q : Phase} → Move s p t q → IsSound s → Agrees p s → IsSound t × Agrees q t
unfolding record_release discard_queued mark_link_up note_dequeued count_discarded begin_reconnect
    is_discarded take_refresh publish_device_info note_info_refresh_failed
Move-consistent (latches s c) v a = let (w, gone) = latch_sound s v in (w, (latch-Owes s c v, gone))
Move-consistent (releases s e r o) v a = (
  kept-IsSound s _ (refl, refl, refl, refl, refl, refl, λ z. z) v,
  (record { armed = a.0.armed; above = a.0.above; below = a.0.below }, λ _. a.1),
)
Move-consistent (acknowledges s e) v a = (acknowledge-IsSound e s v a.0 a.1, tt)
Move-consistent (begins_commission s l h) v a =
    (raise-IsSound ReasonSlot.take false s h v, (commission-raise s h v, raised_link s l))
Move-consistent (drains s e r) v a =
    let gone = drain_upto-empty e s s.queue s.counters v refl (omega (arith, a.0.above)) in
    (
      drained-IsSound s _ _ (drain_upto-IsValid e s.queue s.counters v.queue) gone v,
      (record { armed = a.0.armed; above = a.0.above; below = a.0.below }, gone),
    )
Move-consistent (fails_resync s e r) v a = (
  kept-IsSound s _ (refl, refl, refl, refl, refl, refl, λ z. z) v,
  (
    record { armed = a.0.armed; above = a.0.above; below = a.0.below },
    λ z. absurd (both s.link_down a.1 z),
  ),
)
Move-consistent (rejects s e r) v a = (
  kept-IsSound s _ (refl, refl, refl, refl, refl, refl, λ z. z) v,
  (record { armed = a.0.armed; above = a.0.above; below = a.0.below }, λ _. a.1),
)
Move-consistent (accepts s e r i) v a = (
  linked_up s i r e v a.1,
  (record { armed = a.0.armed; above = a.0.above; below = a.0.below }, λ _. a.1),
)
Move-consistent (dequeues s e w h) v a =
    let (x, y) = next_entry_sound s e v h in
    (kept-IsSound _ _ (refl, refl, refl, refl, refl, refl, λ z. z) x, y)
Move-consistent (discards s e h) v a =
    (kept-IsSound s _ (refl, refl, refl, refl, refl, refl, λ z. z) v, tt)
Move-consistent (writes s e h) v a = (v, current s e a h)
Move-consistent (finishes s e) v a = (v, tt)
Move-consistent (takes_refresh s h) v a =
    (kept-IsSound s _ (refl, refl, refl, refl, refl, refl, λ z. z) v, tt)
Move-consistent (refuses_refresh s h) v a =
    (kept-IsSound s _ (refl, refl, refl, refl, refl, refl, λ z. z) v, tt)
Move-consistent (asks s h) v a = (v, tt)
Move-consistent (publishes s i) v a =
    (kept-IsSound s _ (refl, refl, refl, refl, refl, refl, λ z. z) v, tt)
Move-consistent (fails_refresh s) v a =
    (kept-IsSound s _ (refl, refl, refl, refl, refl, refl, λ z. z) v, tt)
Move-consistent (exits s h) v a = (v, tt)
