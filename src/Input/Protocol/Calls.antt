-- ===== src/Input/Protocol/Calls.antt =====
-- What the calls of producers leave to the writer: src/input/mod.rs and src/input/shared.rs.
use nano_kvm_usb_rs.Prelude.{
  ℕ, ◌≤◌, Bool, true, false, ltb, arith, ◌≡◌, refl, ◌∙◌, inl, inr, Bool-cases,
}
use nano_kvm_usb_rs.Input.Stats.{ReleaseReason}
use nano_kvm_usb_rs.Input.Event.{Event}
use nano_kvm_usb_rs.Input.Shared.{
  Shared, ReasonSlot, raise, submit, admit, enqueue, trigger, engage, begin_shutdown,
  mark_link_down, request_info_refresh,
}
use nano_kvm_usb_rs.Input.Protocol.{
  Phase, idle, holding, writing, latched, commissioning, drained, recorded, exited, HasRoom, Call,
  submits, triggers, engages, shuts_down, loses_link, asks_refresh, refreshing, asking,
}
use nano_kvm_usb_rs.Input.Protocol.Invariant.{IsSound, Owes, Agrees, both, fill_slot_same}

-- What a call leaves to a writer in the middle of a sequence.
pub record Spares (s t : Shared) : Type 0 where
  acked : t.acked_epoch ≡ s.acked_epoch
  asked : s.requested_epoch ≤ t.requested_epoch
  link : t.link_down ≡ false → s.link_down ≡ false
  armed : s.cancel ≡ true → t.cancel ≡ true
  queue : s.cancel ≡ true → t.queue.entries ≡ s.queue.entries

Spares-refl : (s : Shared) → Spares s s
Spares-refl s = record {
  acked = refl;
  asked = omega arith;
  link = λ z. z;
  armed = λ z. z;
  queue = λ z. refl;
}

raise-Spares :
    (slot : ReasonSlot) (closing : Bool) (s : Shared)
    → HasRoom s
    → Spares s (raise slot closing s).1
unfolding raise
raise-Spares slot closing s h = record {
  acked = refl;
  asked = omega arith;
  link = λ z. z;
  armed = λ z. refl;
  queue = λ z. (fill_slot_same slot s.queue).0;
}

-- An engaged state owes no release, so what `admit` does to the queue meets no sequence.
admit-Spares :
    (e : Event) (now : ℕ) (s : Shared) → HasRoom s → s.cancel ≡ false → Spares s (admit e now s).1
unfolding admit trigger raise
admit-Spares e now s h c =
    elim (Bool-cases (enqueue e s.requested_epoch now s.queue s.counters).0) [
      | inl o ↦ rw o (record {
        acked = refl;
        asked = omega arith;
        link = λ z. z;
        armed = λ z. refl;
        queue = λ z. absurd (both s.cancel z c);
      })
      | inr o ↦ rw o (record {
        acked = refl;
        asked = omega arith;
        link = λ z. z;
        armed = λ z. z;
        queue = λ z. absurd (both s.cancel z c);
      })
    ]

submit-Spares :
    (e : Event) (now : ℕ) (s : Shared) → HasRoom s → IsSound s → Spares s (submit e now s).1
unfolding submit
submit-Spares e now s h v = elim (Bool-cases s.shutting_down) [
  | inl d ↦ simp d (Spares-refl s)
  | inr d ↦ elim (Bool-cases s.engaged) [
    | inl g ↦ elim (Bool-cases s.link_down) [
      | inl l ↦ simp (d, g, l) (Spares-refl s)
      | inr l ↦ simp (d, g, l) (admit-Spares e now s h (v.free g))
    ]
    | inr g ↦ simp (d, g) (Spares-refl s)
  ]
]

engage-Spares : (s : Shared) → Spares s (engage s).1
unfolding engage
engage-Spares s = elim (Bool-cases s.shutting_down) [
  | inl d ↦ simp d (Spares-refl s)
  | inr d ↦ elim (Bool-cases (ltb s.acked_epoch s.requested_epoch)) [
    | inl l ↦ simp (d, l) (Spares-refl s)
    | inr l ↦
        rw (d, l)
          (record {
            acked = refl;
            asked = omega arith;
            link = λ z. z;
            armed = λ z. z;
            queue = λ z. refl;
          })
  ]
]

pub Call-Spares : {s t : Shared} → Call s t → IsSound s → Spares s t
unfolding trigger begin_shutdown mark_link_down request_info_refresh
Call-Spares (submits e now s h) v = submit-Spares e now s h v
Call-Spares (triggers r s h) v = raise-Spares (ReasonSlot.note r) false s h
Call-Spares (engages s) v = engage-Spares s
Call-Spares (shuts_down s h) v = raise-Spares (ReasonSlot.note ReleaseReason.shutdown) true s h
Call-Spares (loses_link now s) v = record {
  acked = refl;
  asked = omega arith;
  link = λ z. cc;
  armed = λ z. z;
  queue = λ z. refl;
}
Call-Spares (asks_refresh s) v = record {
  acked = refl;
  asked = omega arith;
  link = λ z. z;
  armed = λ z. z;
  queue = λ z. refl;
}

Owes-Spares : (e : ℕ) (s t : Shared) → Spares s t → Owes e s → Owes e t
Owes-Spares e s t x o = record {
  armed = x.armed o.armed;
  above = omega (arith, x.acked, o.above);
  below = omega (arith, x.asked, o.below);
}

still_down : (s t : Shared) → Spares s t → s.link_down ≡ true → t.link_down ≡ true
still_down s t x h = elim (Bool-cases t.link_down) [
  | inl d ↦ d
  | inr d ↦ absurd (both s.link_down h (x.link d))
]

pub Agrees-Spares : (p : Phase) (s t : Shared) → Spares s t → Agrees p s → Agrees p t
Agrees-Spares idle s t x a = tt
Agrees-Spares (holding e) s t x a = (rw x.acked a.0, λ z. rw x.acked (a.1 (x.link z)))
Agrees-Spares (writing e) s t x a = rw x.acked a
Agrees-Spares (latched e r) s t x a = (Owes-Spares e s t x a.0, x.queue a.0.armed ∙ a.1)
Agrees-Spares (commissioning e r) s t x a = (Owes-Spares e s t x a.0, still_down s t x a.1)
Agrees-Spares (drained e r) s t x a = (Owes-Spares e s t x a.0, x.queue a.0.armed ∙ a.1)
Agrees-Spares (recorded e) s t x a =
    (Owes-Spares e s t x a.0, λ z. x.queue a.0.armed ∙ a.1 (x.link z))
Agrees-Spares refreshing s t x a = tt
Agrees-Spares asking s t x a = tt
Agrees-Spares exited s t x a = tt
