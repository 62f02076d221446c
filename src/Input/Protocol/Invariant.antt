-- ===== src/Input/Protocol/Invariant.antt =====
-- The invariant of the input path under every interleaving: src/input.
use nano_kvm_usb_rs.Prelude.{
  ℕ, ◌≤◌, ◌<◌, [], Bool, true, false, All, ltb, arith, ◌≡◌, refl, inl, inr, Bool-cases,
  ltb_false→le,
}
use nano_kvm_usb_rs.Input.Stats.{ReleaseReason}
use nano_kvm_usb_rs.Input.Event.{Event}
use nano_kvm_usb_rs.Input.Queue.{
  Queue, Entry, retain_after, drain_upto, pop, note_reason, count_barriers,
}
use nano_kvm_usb_rs.Input.Queue
use nano_kvm_usb_rs.Input.Queue.Invariant
use nano_kvm_usb_rs.Input.Queue.Invariant.{new-IsValid}
use nano_kvm_usb_rs.Input.Shared.{
  Shared, ReasonSlot, raise, fill_slot, submit, admit, enqueue, trigger, engage, begin_shutdown,
  mark_link_down, request_info_refresh,
}
use nano_kvm_usb_rs.Input.Shared.Enqueue.{enqueue-IsValid, enqueue-Epochs}
use nano_kvm_usb_rs.Input.Protocol.{
  Phase, idle, holding, writing, latched, commissioning, drained, recorded, exited, System, HasRoom,
  Call, submits, triggers, engages, shuts_down, loses_link, asks_refresh, refreshing, asking,
}

-- What the shared state satisfies at every moment.
pub record IsSound (s : Shared) : Type 0 where
  pub queue : Queue.Invariant.IsValid s.queue
  pub acked_le : s.acked_epoch ≤ s.requested_epoch
  -- a release that is owed is armed, and one that is armed is owed
  pub armed : s.cancel ≡ false → s.acked_epoch ≡ s.requested_epoch
  pub owed : s.cancel ≡ true → s.acked_epoch < s.requested_epoch
  pub free : s.engaged ≡ true → s.cancel ≡ false
  pub closed : s.shutting_down ≡ true → s.engaged ≡ false
  -- no entry is of a session that is not acknowledged
  pub upto : All (λ e. e.epoch ≤ s.acked_epoch) s.queue.entries
  -- with the link up all entries are of the acknowledged session
  pub fresh : s.link_down ≡ false → All (λ e. s.acked_epoch ≡ e.epoch) s.queue.entries

-- A sequence of the epoch `e` is under way.
pub record Owes (e : ℕ) (s : Shared) : Type 0 where
  pub armed : s.cancel ≡ true
  pub above : s.acked_epoch < e
  pub below : e ≤ s.requested_epoch

abbrev pub Agrees : Phase → Shared → Type 0
Agrees idle s = Unit
Agrees (holding e) s = (e.epoch ≤ s.acked_epoch) × (s.link_down ≡ false → s.acked_epoch ≡ e.epoch)
Agrees (writing e) s = e.epoch ≡ s.acked_epoch
Agrees (latched e r) s = Owes e s × (s.queue.entries ≡ [])
Agrees (commissioning e r) s = Owes e s × (s.link_down ≡ true)
Agrees (drained e r) s = Owes e s × (s.queue.entries ≡ [])
Agrees (recorded e) s = Owes e s × (s.link_down ≡ false → s.queue.entries ≡ [])
Agrees refreshing s = Unit
Agrees asking s = Unit
Agrees exited s = Unit

pub record IsConsistent (y : System) : Type 0 where
  pub sound : IsSound y.shared
  pub agrees : Agrees y.phase y.shared

note_same : (r : ReleaseReason) (q : Queue) → (note_reason r q).entries ≡ q.entries
unfolding note_reason
note_same r q = ground arith

note-IsValid :
    (r : ReleaseReason) (q : Queue)
    → Queue.Invariant.IsValid q
    → Queue.Invariant.IsValid (note_reason r q)
unfolding note_reason
note-IsValid r q v = ground (arith, v.counted, v.bounded, v.positive, v.linked)

-- A reason changes no entry.
pub fill_slot_same :
    (slot : ReasonSlot) (q : Queue)
    → ((fill_slot slot q).1.entries ≡ q.entries)
      × (Queue.Invariant.IsValid q → Queue.Invariant.IsValid (fill_slot slot q).1)
unfolding fill_slot note_reason
fill_slot_same ReasonSlot.take q = (
  refl,
  λ v. record {
    counted = v.counted;
    bounded = v.bounded;
    positive = v.positive;
    linked = v.linked;
  },
)
fill_slot_same (ReasonSlot.note r) q = (note_same r q, λ v. note-IsValid r q v)

pub raise-IsSound :
    (slot : ReasonSlot) (closing : Bool) (s : Shared)
    → HasRoom s
    → IsSound s
    → IsSound (raise slot closing s).1
unfolding raise
raise-IsSound slot closing s h v =
    let (same, keeps) = fill_slot_same slot s.queue in
    record {
      queue = keeps v.queue;
      acked_le = omega (arith, v.acked_le);
      armed = λ e. cc;
      owed = λ e. omega (arith, v.acked_le);
      free = λ e. cc;
      closed = λ e. refl;
      upto = rw same v.upto;
      fresh = λ e. rw same (v.fresh e);
    }

-- An operation that leaves the queue, the epochs and the flags, or only marks the link down.
abbrev pub Kept : Shared → Shared → Type 0
Kept s t =
    (t.queue ≡ s.queue)
    × (t.requested_epoch ≡ s.requested_epoch)
    × (t.acked_epoch ≡ s.acked_epoch)
    × (t.cancel ≡ s.cancel)
    × (t.engaged ≡ s.engaged)
    × (t.shutting_down ≡ s.shutting_down)
    × (t.link_down ≡ false → s.link_down ≡ false)

pub kept-IsSound : (s t : Shared) → Kept s t → IsSound s → IsSound t
kept-IsSound s t (q, r, a, c, e, d, l) v = record {
  queue = rw q v.queue;
  acked_le = rw (a, r) v.acked_le;
  armed = λ h. rw (a, r) (v.armed (rw c at h));
  owed = λ h. rw (a, r) (v.owed (rw c at h));
  free = λ h. rw c (v.free (rw e at h));
  closed = λ h. rw e (v.closed (rw d at h));
  upto = rw (q, a) v.upto;
  fresh = λ h. rw (q, a) (v.fresh (l h));
}

admit-IsSound :
    (e : Event) (now : ℕ) (s : Shared)
    → HasRoom s
    → s.engaged ≡ true
    → s.link_down ≡ false
    → IsSound s
    → IsSound (admit e now s).1
unfolding admit trigger
admit-IsSound e now s h g l v =
    let same : s.acked_epoch ≡ s.requested_epoch = v.armed (v.free g) in
    let (over, q, c) = enqueue e s.requested_epoch now s.queue s.counters in
    let grown : IsSound (record s { queue = q; counters = c }) = record {
      queue =
          enqueue-IsValid s.queue s.counters s.requested_epoch now v.queue (rw (← same) v.upto) e;
      acked_le = v.acked_le;
      armed = v.armed;
      owed = v.owed;
      free = v.free;
      closed = v.closed;
      upto =
          enqueue-Epochs (λ k. k ≤ s.acked_epoch) s.requested_epoch now (omega arith) e s.queue
            s.counters v.upto;
      fresh = λ z.
          enqueue-Epochs (λ k. s.acked_epoch ≡ k) s.requested_epoch now same e s.queue s.counters
            (v.fresh z);
    } in
    elim (Bool-cases over) [
      | inl o ↦ rw o (
          raise-IsSound _ false _ h
            (kept-IsSound _ _ (refl, refl, refl, refl, refl, refl, λ z. z) grown))
      | inr o ↦ rw o grown
    ]

pub both : (b : Bool) → b ≡ true → b ≡ false → ⊥
both b p q = ground arith

unarmed : (s : Shared) → IsSound s → s.requested_epoch ≤ s.acked_epoch → s.cancel ≡ false
unarmed s v h = elim (Bool-cases s.cancel) [ inl c ↦ absurd (omega (arith, v.owed c)) | inr c ↦ c ]

submit-IsSound :
    (e : Event) (now : ℕ) (s : Shared) → HasRoom s → IsSound s → IsSound (submit e now s).1
unfolding submit
submit-IsSound e now s h v = elim (Bool-cases s.shutting_down) [
  | inl d ↦ simp d v
  | inr d ↦ elim (Bool-cases s.engaged) [
    | inl g ↦ elim (Bool-cases s.link_down) [
      | inl l ↦ simp (d, g, l) v
      | inr l ↦ simp (d, g, l) (admit-IsSound e now s h g l v)
    ]
    | inr g ↦ simp (d, g) v
  ]
]

engage-IsSound : (s : Shared) → IsSound s → IsSound (engage s).1
unfolding engage
engage-IsSound s v = elim (Bool-cases s.shutting_down) [
  | inl d ↦ simp d v
  | inr d ↦ elim (Bool-cases (ltb s.acked_epoch s.requested_epoch)) [
    | inl l ↦ simp (d, l) v
    | inr l ↦
        simp (d, l)
          (record {
            queue = v.queue;
            acked_le = v.acked_le;
            armed = v.armed;
            owed = v.owed;
            free = λ _. unarmed s v (ltb_false→le _ _ l);
            closed = λ z. absurd (both false z refl);
            upto = v.upto;
            fresh = v.fresh;
          })
  ]
]

-- Every call keeps the shared state sound.
pub Call-IsSound : {s t : Shared} → Call s t → IsSound s → IsSound t
unfolding trigger begin_shutdown mark_link_down request_info_refresh
Call-IsSound (submits e now s h) v = submit-IsSound e now s h v
Call-IsSound (triggers r s h) v = raise-IsSound (ReasonSlot.note r) false s h v
Call-IsSound (engages s) v = engage-IsSound s v
Call-IsSound (shuts_down s h) v = raise-IsSound (ReasonSlot.note ReleaseReason.shutdown) true s h v
Call-IsSound (loses_link now s) v = kept-IsSound s _ (refl, refl, refl, refl, refl, refl, λ z. cc) v
Call-IsSound (asks_refresh s) v = kept-IsSound s _ (refl, refl, refl, refl, refl, refl, λ z. z) v
