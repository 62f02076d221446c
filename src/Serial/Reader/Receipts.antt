-- ===== src/Serial/Reader/Receipts.antt =====
-- src/serial/reader.rs: one read, against the matcher.
use nano_kvm_usb_rs.Prelude.{
  by_test, ℕ, ◌-◌, ◌<◌, List, [], ◌∷◌, ◌++◌, map, Bool, true, false, ◌&&◌, none, some, ltb, leb,
  length, ◌≡◌, refl, sym, ap, ◌∙◌, subst, arith, if◌then◌else◌, All,
}
use nano_kvm_usb_rs.Proto.Frame.{Frame, into_reply}
use nano_kvm_usb_rs.Proto.Parser.{Parser, frame, push, drain_events}
use nano_kvm_usb_rs.Proto.Parser.Stream.{clean}
use nano_kvm_usb_rs.Proto.Parser.RoundTrip.{stream, push-stream, IsSendable}
use nano_kvm_usb_rs.Proto.Reply.{Reply}
use nano_kvm_usb_rs.Serial.Reader.{
  Shared, Reader, Read, bytes, timed_out, failed, route, divert, retire, is_answered, handle,
  handle_all, bump, expire, receive,
}
use nano_kvm_usb_rs.Serial.Reader.Matcher.{
  Matcher, deliver, deliver_all, pushing, deliver_late, deliver_matched, deliver_other,
}

abbrev pub matcher_of : Shared → Matcher
matcher_of s = record {
  owed = s.inner.timed_out;
  wanted = s.inner.inflight;
  got = s.inner.reply;
  pushed = s.unsolicited;
}

-- The matcher behind what the reader did, with a receiver that still listens and a thread that goes on.
pub record Delivered (rs : List Reply) (s s' : Shared) : Type 0 where
  pub matches : matcher_of s' ≡ deliver_all rs (matcher_of s)
  pub listens : s'.listening ≡ true
  pub runs : s'.stop ≡ s.stop

-- A frame to the channel, from a state whose matcher has the rest already.
divert-matcher :
    (late : Bool) (r : Reply) (s : Shared)
    → s.listening ≡ true
    → matcher_of (divert late r s) ≡ pushing r (matcher_of s)
unfolding divert
divert-matcher late r s l =
    ap
      (λ b. record (matcher_of s) {
        pushed = if b then s.unsolicited ++ (r ∷ []) else s.unsolicited;
      })
      l

route-Delivered :
    (now : ℕ) (r : Reply) (s : Shared) → s.listening ≡ true → Delivered (r ∷ []) s (route now r s)
unfolding route divert deliver_all
route-Delivered now r s l =
    let m = matcher_of s in
    let t = record s { inner = retire now r s.inner } in
    by_test (is_answered s.inner.timed_out r) (divert true r t) _ (Delivered (r ∷ []) s)
      (λ e. record {
        matches = divert-matcher true r t l ∙ sym (deliver_late r m e);
        listens = l;
        runs = refl;
      })
      (λ e.
        by_test (is_answered s.inner.inflight r)
          (record s { inner = record (s.inner) { inflight = none; reply = some r } })
          (divert false r s) (Delivered (r ∷ []) s)
          (λ f. record { matches = sym (deliver_matched r m e f); listens = l; runs = refl })
          (λ f. record {
            matches = divert-matcher false r s l ∙ sym (deliver_other r m e f);
            listens = l;
            runs = refl;
          }))

abbrev pub replies : List Frame → List Reply
replies fs = map into_reply fs

deliver_all-append :
    (rs qs : List Reply) (m : Matcher)
    → deliver_all (rs ++ qs) m ≡ deliver_all qs (deliver_all rs m)
unfolding deliver_all
deliver_all-append [] qs m = refl
deliver_all-append (r ∷ rs) qs m = deliver_all-append rs qs (deliver r m)

pub Delivered-then :
    {rs qs : List Reply} {s t u : Shared}
    → Delivered rs s t
    → Delivered qs t u
    → Delivered (rs ++ qs) s u
Delivered-then {rs} {qs} {s} h k = record {
  matches =
      k.matches ∙ ap (deliver_all qs) h.matches ∙ sym (deliver_all-append rs qs (matcher_of s));
  listens = k.listens;
  runs = k.runs ∙ h.runs;
}

pub none-Delivered :
    (s s' : Shared)
    → matcher_of s' ≡ matcher_of s
    → s'.listening ≡ true
    → s'.stop ≡ s.stop
    → Delivered [] s s'
unfolding deliver_all
none-Delivered s s' e l q = record { matches = e; listens = l; runs = q }

handle_all-Delivered :
    (now : ℕ) (fs : List Frame) (s : Shared)
    → s.listening ≡ true
    → Delivered (replies fs) s (handle_all now (map frame fs) s)
unfolding handle_all handle
handle_all-Delivered now [] s l = none-Delivered s s refl l refl
handle_all-Delivered now (f ∷ fs) s l =
    let t = record s {
      counters = record (s.counters) { frames_rx = bump s.counters.frames_rx 1 };
    } in
    let one = route-Delivered now (into_reply f) t l in
    let u = route now (into_reply f) t in
    let later = handle_all-Delivered now fs u one.listens in
    let both = Delivered-then {s = t} {t = u} one later in
    record { matches = both.matches; listens = both.listens; runs = both.runs }

-- The reads deliver these bytes, with no pause as long as the silence that ends a frame.
abbrev pub Carries : ℕ → ℕ → List (ℕ × Read) → List ℕ → Type 0
Carries silence since [] b = b ≡ []
Carries silence since ((now, bytes []) ∷ reads) b = ⊥
Carries silence since ((now, bytes (x ∷ chunk)) ∷ reads) b =
    (later : List ℕ) × (b ≡ (x ∷ chunk) ++ later) × Carries silence now reads later
Carries silence since ((now, timed_out) ∷ reads) b =
    (now - since < silence) × Carries silence since reads b
Carries silence since ((now, failed e) ∷ reads) b = ⊥

and_false : (a b : Bool) → b ≡ false → a && b ≡ true → ⊥
and_false a b e h = ground (arith, e, h)

pub expire_early :
    (silence now : ℕ) (r : Reader) (s : Shared)
    → now - r.last_byte_at < silence
    → expire silence now r s ≡ (r, s)
unfolding expire
expire_early silence now r s h =
    let quiet = leb silence (now - r.last_byte_at) in
    let e : quiet ≡ false = ground (arith, h) in
    by_test (ltb 0 (length r.parser.buf) && quiet) _ (r, s) (λ o. o ≡ (r, s))
      (λ c. absurd (and_false (ltb 0 (length r.parser.buf)) quiet e c)) (λ c. refl)

-- A read of a frame stream: the frames that it completes are handled, and the rest is kept.
pub record Received (fs : List Frame) (b : List ℕ) (now : ℕ) (s : Shared) (out : Reader × Shared)
    : Type 0 where
  pub done : List Frame
  pub todo : List Frame
  pub left : List ℕ
  pub split : fs ≡ done ++ todo
  pub rest : left ++ b ≡ stream todo
  pub ends : b ≡ [] → left ≡ []
  pub parser : out.0.parser ≡ clean left []
  pub at_time : out.0.last_byte_at ≡ now
  pub delivered : Delivered (replies done) s out.1

pub receive-Received :
    (now : ℕ) (chunk : List ℕ) (r : Reader) (s : Shared) (fs : List Frame) (left b : List ℕ)
    → All IsSendable fs
    → r.parser ≡ clean left []
    → left ++ (chunk ++ b) ≡ stream fs
    → (chunk ++ b ≡ [] → left ≡ [])
    → s.listening ≡ true
    → Received fs b now s (receive now chunk r s)
unfolding receive drain_events
receive-Received now chunk r s fs left b a p e idle l =
    let reads = push-stream chunk fs left b [] a e idle in
    let state : push r.parser chunk ≡ clean reads.left (map frame reads.done) =
      ap (λ q. push q chunk) p ∙ reads.state in
    let t = record s {
      counters = record (s.counters) { bytes_rx = bump s.counters.bytes_rx (length chunk) };
    } in
    let handled = handle_all-Delivered now reads.done t l in
    let here : Delivered (replies reads.done) t (handle_all now (push r.parser chunk).events t) =
      subst (λ es. Delivered (replies reads.done) t (handle_all now es t))
        (sym (ap (λ q. q.events) state)) handled in
    record {
      done = reads.done;
      todo = reads.todo;
      left = reads.left;
      split = reads.split;
      rest = reads.rest;
      ends = reads.ends;
      parser = ap {A = Parser} (λ q. record q { events = [] }) state;
      at_time = refl;
      delivered = record { matches = here.matches; listens = here.listens; runs = here.runs };
    }
