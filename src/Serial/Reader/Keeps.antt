-- ===== src/Serial/Reader/Keeps.antt =====
-- src/serial/reader.rs: what a turn of the reader leaves to the request that waits.
use nano_kvm_usb_rs.Prelude.{
  length, ltb, leb, ◌-◌, ◌&&◌, by_test, ℕ, List, [], ◌∷◌, Bool, true, false, Option, none, some,
  ◌≡◌, refl, sym, ◌∙◌, ap, ◌⊎◌, inl, inr,
}
use nano_kvm_usb_rs.Proto.Frame.{into_reply}
use nano_kvm_usb_rs.Proto.Reply.{Reply, answers}
use nano_kvm_usb_rs.Proto.Parser.{Event, push, drain_events, expire_partial}
use nano_kvm_usb_rs.Serial.Reader.{
  Inner, Shared, Reader, Read, bytes, timed_out, failed, DownReason, mark_down, route, divert,
  is_answered, handle, handle_all, handle_expired, expire, receive, turn, bump, finish,
}

-- A request of `cmd` waits: unanswered, or with the reply that answers it.
abbrev pub Engaged : ℕ → Inner → Type 0
Engaged cmd i =
    ((i.inflight ≡ some cmd) × (i.reply ≡ none))
    ⊎ ((i.inflight ≡ none) × ((r : Reply) × (i.reply ≡ some r) × (answers r cmd ≡ true)))

-- What stays as it is: that no request waits, that one waits, and that the link is down.
pub record Keeps (s s' : Shared) : Type 0 where
  pub none_waits : s.inner.inflight ≡ none → s'.inner.inflight ≡ none
  pub waits : (cmd : ℕ) → Engaged cmd s.inner → Engaged cmd s'.inner
  pub stays_down : (reason : DownReason) → s.inner.down ≡ some reason → s'.inner.down ≡ some reason

pub Keeps-refl : (s : Shared) → Keeps s s
Keeps-refl s = record { none_waits = λ h. h; waits = λ cmd h. h; stays_down = λ r h. h }

pub Keeps-trans : {s t u : Shared} → Keeps s t → Keeps t u → Keeps s u
Keeps-trans h k = record {
  none_waits = λ e. k.none_waits (h.none_waits e);
  waits = λ cmd e. k.waits cmd (h.waits cmd e);
  stays_down = λ r e. k.stays_down r (h.stays_down r e);
}

-- Where the matched fields are the same.
pub Keeps-same :
    {s s' : Shared}
    → s'.inner.inflight ≡ s.inner.inflight
    → s'.inner.reply ≡ s.inner.reply
    → s'.inner.down ≡ s.inner.down
    → Keeps s s'
Keeps-same e f g = record {
  none_waits = λ h. e ∙ h;
  waits = λ cmd w. elim w [
    | inl (h, k) ↦ inl (e ∙ h, f ∙ k)
    | inr (h, (r, k, a)) ↦ inr (e ∙ h, (r, f ∙ k, a))
  ];
  stays_down = λ r h. g ∙ h;
}

mark_down-Keeps : (reason : DownReason) (s : Shared) → Keeps s (mark_down reason s)
unfolding mark_down
mark_down-Keeps reason s = record {
  none_waits = λ h. h;
  waits = λ cmd h. h;
  stays_down = λ r h. rw h refl;
}

unanswered : ◌≡◌ {A = Bool} false true → ⊥
unanswered h = cc

matched-Keeps :
    (r : Reply) (s : Shared)
    → is_answered s.inner.inflight r ≡ true
    → Keeps s (record s { inner = record (s.inner) { inflight = none; reply = some r } })
matched-Keeps r s a = record {
  none_waits = λ h. refl;
  waits = λ cmd w. elim w [
    | inl (h, k) ↦ inr (refl, (r, refl, ap (λ o. is_answered o r) (sym h) ∙ a))
    | inr (h, k) ↦ absurd (unanswered (ap (λ o. is_answered o r) (sym h) ∙ a))
  ];
  stays_down = λ r h. h;
}

route-Keeps : (now : ℕ) (r : Reply) (s : Shared) → Keeps s (route now r s)
unfolding route divert
route-Keeps now r s =
    by_test (is_answered s.inner.timed_out r) _ _ (Keeps s) (λ late. Keeps-same refl refl refl)
      (λ fresh.
        by_test (is_answered s.inner.inflight r) _ _ (Keeps s) (λ a. matched-Keeps r s a)
          (λ other. Keeps-same refl refl refl))

handle-Keeps : (now : ℕ) (e : Event) (s : Shared) → Keeps s (handle now e s)
unfolding handle
handle-Keeps now (Event.frame f) s =
    let t = record s {
      counters = record (s.counters) { frames_rx = bump s.counters.frames_rx 1 };
    } in
    let same : Keeps s t = Keeps-same refl refl refl in
    Keeps-trans same (route-Keeps now (into_reply f) t)
handle-Keeps now (Event.bad_checksum raw) s = Keeps-same refl refl refl
handle-Keeps now (Event.truncated raw) s = Keeps-same refl refl refl
handle-Keeps now (Event.garbage n) s = Keeps-same refl refl refl

handle_all-Keeps : (now : ℕ) (es : List Event) (s : Shared) → Keeps s (handle_all now es s)
unfolding handle_all
handle_all-Keeps now [] s = Keeps-refl s
handle_all-Keeps now (e ∷ es) s =
    Keeps-trans (handle-Keeps now e s) (handle_all-Keeps now es (handle now e s))

handle_expired-Keeps : (now : ℕ) (e : Option Event) (s : Shared) → Keeps s (handle_expired now e s)
handle_expired-Keeps now none s = Keeps-refl s
handle_expired-Keeps now (some e) s = handle-Keeps now e s

expire-Keeps : (silence now : ℕ) (r : Reader) (s : Shared) → Keeps s (expire silence now r s).1
unfolding expire
expire-Keeps silence now r s =
    let (e, p) = expire_partial r.parser in
    let late = ltb 0 (length r.parser.buf) && leb silence (now - r.last_byte_at) in
    by_test {A = Reader × Shared} late (record r { parser = p }, handle_expired now e s) (r, s)
      (λ o. Keeps s o.1) (λ h. handle_expired-Keeps now e s) (λ h. Keeps-refl s)

-- Every turn of the reader.
pub turn-Keeps :
    (silence now : ℕ) (read : Read) (r : Reader) (s : Shared)
    → Keeps s (turn silence now read r s).1.1
unfolding turn receive
turn-Keeps silence now (bytes []) r s = mark_down-Keeps _ s
turn-Keeps silence now (bytes (b ∷ chunk)) r s =
    let t = record s {
      counters = record (s.counters) { bytes_rx = bump s.counters.bytes_rx (length (b ∷ chunk)) };
    } in
    let same : Keeps s t = Keeps-same refl refl refl in
    Keeps-trans same (handle_all-Keeps now (drain_events (push r.parser (b ∷ chunk))).0 t)
turn-Keeps silence now timed_out r s = expire-Keeps silence now r s
turn-Keeps silence now (failed e) r s = mark_down-Keeps _ s

pub finish-Keeps : (s : Shared) → Keeps s (finish s)
unfolding finish
finish-Keeps s = Keeps-same refl refl refl
