-- ===== src/Serial/Link/Conversation.antt =====
-- src/serial/link.rs: transactions with the reader between their sections.
use nano_kvm_usb_rs.Prelude.{ℕ, false, none, some, Result, ◌≡◌, refl, sym, subst, ap, ◌⊎◌, inl, inr}
use nano_kvm_usb_rs.Proto.Frame.{encode}
use nano_kvm_usb_rs.Proto.Reply.{Reply}
use nano_kvm_usb_rs.Serial.Reader
use nano_kvm_usb_rs.Serial.Reader.{Inner, Shared, DownReason, mark_down, Reader, turn, finish}
use nano_kvm_usb_rs.Serial.Reader.Keeps.{Keeps, Keeps-same, turn-Keeps, finish-Keeps}
use nano_kvm_usb_rs.Serial.Link.{
  LinkError, Phase, idle, returned, System, Move, calls, steps, reads, ends, deafens, Reach, here,
  next, begin_transact, step,
}
use nano_kvm_usb_rs.Serial.Link.Sections.{
  Answers, Agrees, Agrees-Keeps, Sound, begun-Sound, step-Sound,
}

-- Before a call no request waits.
free :
    (p : Phase) (i : Inner)
    → (p ≡ idle) ⊎ ((c : ℕ) × (r : Result Reply LinkError) × (p ≡ returned c r))
    → Agrees p i
    → i.inflight ≡ none
free p i (inl e) a = subst (λ q. Agrees q i) e a
free p i (inr q) a = (subst (λ q. Agrees q i) q.2 a).0

-- A step of the system keeps the agreement, and a link that is down stays down.
record IsFollowed (y z : System) : Type 0 where
  agrees : Agrees z.phase z.shared.inner
  stays_down :
      (reason : DownReason) → y.shared.inner.down ≡ some reason → z.shared.inner.down ≡ some reason

from_section :
    (y z : System) (out : Phase × Shared)
    → (z.phase, z.shared) ≡ out
    → Sound y.shared out
    → IsFollowed y z
from_section y z out e v =
    let w = subst (Sound y.shared) (sym e) v in
    record { agrees = w.agrees; stays_down = λ r d. w.stays_down r d }

from_reader :
    (y z : System) (s : Shared)
    → z.phase ≡ y.phase
    → z.shared ≡ s
    → Keeps y.shared s
    → Agrees y.phase y.shared.inner
    → IsFollowed y z
from_reader y z s p e k a =
    let k' = subst (Keeps y.shared) (sym e) k in
    record {
      agrees =
          subst (λ q. Agrees q z.shared.inner) (sym p)
            (Agrees-Keeps y.phase y.shared z.shared k' a);
      stays_down = λ r d. k'.stays_down r d;
    }

Move-IsFollowed :
    {quiet_after silence : ℕ} {y z : System}
    → Move quiet_after silence y z
    → Agrees y.phase y.shared.inner
    → IsFollowed y z
unfolding begin_transact
Move-IsFollowed {quiet_after} {silence} {y} {z} (calls now cmd payload allowed f r e) a =
    from_section y z (begin_transact quiet_after now cmd payload allowed y.shared) e (
      begun-Sound (encode cmd payload) quiet_after now cmd allowed y.shared
        (free y.phase y.shared.inner f a))
Move-IsFollowed {quiet_after} {silence} {y} {z} (steps now answer r e) a =
    from_section y z (step quiet_after now answer y.phase y.shared) e
      (step-Sound quiet_after now answer y.phase y.shared a)
Move-IsFollowed {quiet_after} {silence} {y} {z} (reads now read p e) a =
    from_reader y z (turn silence now read y.reader y.shared).1.1 p (ap (λ o. o.1) e)
      (turn-Keeps silence now read y.reader y.shared) a
Move-IsFollowed {quiet_after} {silence} {y} {z} (ends p r e) a =
    from_reader y z (finish y.shared) p e (finish-Keeps y.shared) a
Move-IsFollowed {quiet_after} {silence} {y} {z} (deafens p r e) a =
    let t = record (y.shared) { listening = false } in
    from_reader y z t p e (Keeps-same refl refl refl) a

Reach-Agrees :
    {quiet_after silence : ℕ} {y z : System}
    → Agrees y.phase y.shared.inner
    → Reach quiet_after silence y z
    → Agrees z.phase z.shared.inner
Reach-Agrees a here = a
Reach-Agrees a (next r m) = (Move-IsFollowed m (Reach-Agrees a r)).agrees

-- A new link, before its first transaction.
abbrev pub new_link : ℕ → System
new_link now = record { phase = idle; reader = Reader.starting now; shared = Reader.new }

-- In every state that a link can reach, whatever its reader reads and however the turns of the two
-- interleave: a transaction that has returned a reply returned one that answers its own command and is no
-- error, one that has returned a device error or a timeout names its own command, and no request
-- is left in flight behind it.
pub returned-Answers :
    {quiet_after silence : ℕ} (now : ℕ) {z : System} (cmd : ℕ) (r : Result Reply LinkError)
    → Reach quiet_after silence (new_link now) z
    → z.phase ≡ returned cmd r
    → (z.shared.inner.inflight ≡ none) × Answers cmd r
returned-Answers now {z} cmd r h e = subst (λ p. Agrees p z.shared.inner) e (Reach-Agrees refl h)

-- A link never comes back: in every state that follows one in which it is down, it is down for the same
-- reason.
pub down-stays :
    {quiet_after silence : ℕ} (now : ℕ) {y z : System} (reason : DownReason)
    → Reach quiet_after silence (new_link now) y
    → Reach quiet_after silence y z
    → y.shared.inner.down ≡ some reason
    → z.shared.inner.down ≡ some reason
down-stays now reason before here d = d
down-stays now {y} {z} reason before (next r m) d =
    (Move-IsFollowed m (Reach-Agrees (Reach-Agrees refl before) r)).stays_down reason
      (down-stays now reason before r d)
