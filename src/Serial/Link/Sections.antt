-- ===== src/Serial/Link/Sections.antt =====
-- src/serial/link.rs: what each critical section of a transaction keeps.
use nano_kvm_usb_rs.Prelude.{
  by_test, ℕ, ◌+◌, min, List, true, false, ltb, Option, none, some, Result, ok, err, Option-cases,
  ◌≡◌, refl, sym, ◌∙◌, subst, inl, inr,
}
use nano_kvm_usb_rs.Proto.Frame.{EncodeError}
use nano_kvm_usb_rs.Proto.Reply.{Reply, answers, is_error}
use nano_kvm_usb_rs.Serial.Reader.{Inner, Shared, DownReason, mark_down}
use nano_kvm_usb_rs.Serial.Reader.Keeps.{Engaged, Keeps}
use nano_kvm_usb_rs.Serial.Link.{
  LinkError, timeout, device, LinkResult, Phase, idle, settling, registering, writing, awaiting,
  returned, begun, begin_settle, step, Written, settle_turn, settle_open, unless_down, close_window,
  Settle, settled, behind_settle, register, behind_register, write_request, unless_failed,
  write_raw, wrote, behind_write, Await, finished, await_turn, await_reply, collected, give_up,
  behind_await,
}

-- What a transaction of `cmd` may return.
abbrev pub Answers : ℕ → Result Reply LinkError → Type 0
Answers cmd (ok r) = (answers r cmd ≡ true) × (is_error r ≡ false)
Answers cmd (err (device c code)) = c ≡ cmd
Answers cmd (err (timeout c t)) = c ≡ cmd
Answers cmd (err e) = Unit

-- The matcher agrees with the place of the writer.
abbrev pub Agrees : Phase → Inner → Type 0
Agrees idle i = i.inflight ≡ none
Agrees (settling hard cmd frame allowed) i = i.inflight ≡ none
Agrees (registering cmd frame allowed) i = i.inflight ≡ none
Agrees (writing cmd frame allowed) i = Engaged cmd i
Agrees (awaiting cmd allowed deadline) i = Engaged cmd i
Agrees (returned cmd r) i = (i.inflight ≡ none) × Answers cmd r

pub Agrees-Keeps : (p : Phase) (s s' : Shared) → Keeps s s' → Agrees p s.inner → Agrees p s'.inner
Agrees-Keeps idle s s' k a = k.none_waits a
Agrees-Keeps (settling hard cmd frame allowed) s s' k a = k.none_waits a
Agrees-Keeps (registering cmd frame allowed) s s' k a = k.none_waits a
Agrees-Keeps (writing cmd frame allowed) s s' k a = k.waits cmd a
Agrees-Keeps (awaiting cmd allowed deadline) s s' k a = k.waits cmd a
Agrees-Keeps (returned cmd r) s s' k a = (k.none_waits a.0, a.1)

-- What a section of the writer comes to: the phases agree, and a link that is down stays down.
pub record Sound (s : Shared) (out : Phase × Shared) : Type 0 where
  pub agrees : Agrees out.0 out.1.inner
  pub stays_down :
      (reason : DownReason) → s.inner.down ≡ some reason → out.1.inner.down ≡ some reason

pub begun-Sound :
    (r : Result (List ℕ) EncodeError) (quiet_after now cmd allowed : ℕ) (s : Shared)
    → s.inner.inflight ≡ none
    → Sound s (begun r quiet_after now cmd allowed s)
unfolding begin_settle
begun-Sound (err e) quiet_after now cmd allowed s h = record {
  agrees = (h, tt);
  stays_down = λ r d. d;
}
begun-Sound (ok frame) quiet_after now cmd allowed s h = elim (Option-cases s.inner.quiet_since) [
  | inl e ↦ rw (e, begin_settle) (record { agrees = h; stays_down = λ r d. d })
  | inr (since, e) ↦ rw (e, begin_settle) (record { agrees = h; stays_down = λ r d. d })
]

-- A test for the link being down, with what holds in either case.
by_down {ℓ κ} :
    {A : Type ℓ} (o : Option DownReason) (x : A) (f : DownReason → A) (P : A → Type κ)
    → P x
    → ((reason : DownReason) → P (f reason))
    → P (unless_down o x f)
by_down none x f P h k = h
by_down (some reason) x f P h k = k reason

settle-Sound :
    (quiet_after hard now cmd allowed : ℕ) (frame : List ℕ) (s : Shared)
    → s.inner.inflight ≡ none
    → Sound s (
      behind_settle (settle_turn quiet_after hard now s).0 hard cmd frame allowed,
      (settle_turn quiet_after hard now s).1,
    )
unfolding settle_turn
settle-Sound quiet_after hard now cmd allowed frame s h =
    by_down s.inner.down (settle_open quiet_after hard now s.inner.quiet_since s) _
      (λ o. Sound s (behind_settle o.0 hard cmd frame allowed, o.1))
      (open_window s.inner.quiet_since)
      (λ reason. record { agrees = (h, tt); stays_down = λ r d. d })
  where
    open_window :
        (q : Option ℕ)
        → Sound s (
          behind_settle (settle_open quiet_after hard now q s).0 hard cmd frame allowed,
          (settle_open quiet_after hard now q s).1,
        )
    open_window none = record { agrees = h; stays_down = λ r d. d }
    open_window (some since) =
        by_test {A = Settle × Shared} (ltb (min (since + quiet_after) hard) now)
          (settled, close_window s) (Settle.waits_until (min (since + quiet_after) hard), s)
          (λ o. Sound s (behind_settle o.0 hard cmd frame allowed, o.1))
          (λ e. record { agrees = h; stays_down = λ r d. d })
          (λ e. record { agrees = h; stays_down = λ r d. d })

register-Sound :
    (cmd allowed : ℕ) (frame : List ℕ) (s : Shared)
    → s.inner.inflight ≡ none
    → Sound s (behind_register (register cmd s).0 cmd frame allowed, (register cmd s).1)
unfolding register
register-Sound cmd allowed frame s h =
    by_down {A = LinkResult × Shared} s.inner.down _ _
      (λ o. Sound s (behind_register o.0 cmd frame allowed, o.1))
      (record { agrees = inl (refl, refl); stays_down = λ r d. d })
      (λ reason. record { agrees = (h, tt); stays_down = λ r d. d })

write-Sound :
    (cmd allowed deadline : ℕ) (frame : List ℕ) (answer : Written) (s : Shared)
    → Engaged cmd s.inner
    → Sound s (
      behind_write (write_request frame answer s).0 cmd allowed deadline,
      (write_request frame answer s).1,
    )
unfolding write_request write_raw mark_down
write-Sound cmd allowed deadline frame answer s w =
    by_down s.inner.down (wrote frame answer s) _
      (λ o. Sound s (behind_write (unless_failed o).0 cmd allowed deadline, (unless_failed o).1))
      (put answer) (λ reason. record { agrees = (refl, tt); stays_down = λ r d. d })
  where
    put :
        (a : Written)
        → Sound s (
          behind_write (unless_failed (wrote frame a s)).0 cmd allowed deadline,
          (unless_failed (wrote frame a s)).1,
        )
    put none = record { agrees = w; stays_down = λ r d. d }
    put (some e) = record { agrees = (refl, tt); stays_down = λ r d. rw d refl }

collected-Sound :
    (cmd allowed deadline : ℕ) (r : Reply) (s : Shared)
    → s.inner.inflight ≡ none
    → answers r cmd ≡ true
    → Sound s (behind_await (collected cmd r s).0 cmd allowed deadline, (collected cmd r s).1)
unfolding collected
collected-Sound cmd allowed deadline r s h a =
    by_test {A = Await × Shared} (is_error r) _ (finished (ok r), s)
      (λ o. Sound s (behind_await o.0 cmd allowed deadline, o.1))
      (λ e. record { agrees = (h, refl); stays_down = λ r d. d })
      (λ e. record { agrees = (h, (a, e)); stays_down = λ r d. d })

-- The reply that waits, and the request that it answers.
waiting_reply :
    (cmd : ℕ) (i : Inner) (r : Reply)
    → Engaged cmd i
    → i.reply ≡ some r
    → (i.inflight ≡ none) × (answers r cmd ≡ true)
waiting_reply cmd i r (inl (h, e)) k = absurd (different (sym e ∙ k))
  where
    different : ◌≡◌ {A = Option Reply} none (some r) → ⊥
    different h = cc
waiting_reply cmd i r (inr (h, q)) k =
    let same : q.0 ≡ r = some_eq (sym q.1 ∙ k) in (h, subst (λ x. answers x cmd ≡ true) same q.2)
  where
    some_eq : {a b : Reply} → ◌≡◌ {A = Option Reply} (some a) (some b) → a ≡ b
    some_eq h = cc

await_reply-Sound :
    (o : Option Reply) (cmd allowed deadline now : ℕ) (s : Shared)
    → Engaged cmd s.inner
    → s.inner.reply ≡ o
    → Sound s (
      behind_await (await_reply cmd allowed deadline now o s).0 cmd allowed deadline,
      (await_reply cmd allowed deadline now o s).1,
    )
unfolding give_up
await_reply-Sound (some r) cmd allowed deadline now s w k =
    let (h, a) = waiting_reply cmd s.inner r w k in
    let t = record s { inner = record (s.inner) { reply = none } } in
    let v = collected-Sound cmd allowed deadline r t h a in
    record { agrees = v.agrees; stays_down = λ reason d. v.stays_down reason d }
await_reply-Sound none cmd allowed deadline now s w k =
    by_down {A = Await × Shared} s.inner.down _ _
      (λ o. Sound s (behind_await o.0 cmd allowed deadline, o.1))
      (by_test {A = Await × Shared} (ltb deadline now) (give_up cmd allowed now s)
        (Await.waits_until deadline, s) (λ o. Sound s (behind_await o.0 cmd allowed deadline, o.1))
        (λ e. record { agrees = (refl, refl); stays_down = λ r d. d })
        (λ e. record { agrees = w; stays_down = λ r d. d }))
      (λ reason. record { agrees = (refl, tt); stays_down = λ r d. d })

await-Sound :
    (cmd allowed deadline now : ℕ) (s : Shared)
    → Engaged cmd s.inner
    → Sound s (
      behind_await (await_turn cmd allowed deadline now s).0 cmd allowed deadline,
      (await_turn cmd allowed deadline now s).1,
    )
unfolding await_turn
await-Sound cmd allowed deadline now s w =
    await_reply-Sound s.inner.reply cmd allowed deadline now s w refl

pub step-Sound :
    (quiet_after now : ℕ) (answer : Written) (p : Phase) (s : Shared)
    → Agrees p s.inner
    → Sound s (step quiet_after now answer p s)
unfolding step
step-Sound quiet_after now answer idle s a = record { agrees = a; stays_down = λ r d. d }
step-Sound quiet_after now answer (settling hard cmd frame allowed) s a =
    settle-Sound quiet_after hard now cmd allowed frame s a
step-Sound quiet_after now answer (registering cmd frame allowed) s a =
    register-Sound cmd allowed frame s a
step-Sound quiet_after now answer (writing cmd frame allowed) s a =
    write-Sound cmd allowed (now + allowed) frame answer s a
step-Sound quiet_after now answer (awaiting cmd allowed deadline) s a =
    await-Sound cmd allowed deadline now s a
step-Sound quiet_after now answer (returned cmd r) s a = record {
  agrees = a;
  stays_down = λ r d. d;
}
