-- ===== src/Input/Writer/Motion/Outcome.antt =====
-- src/input/writer.rs: how the loops that write a run of motion can end.
use nano_kvm_usb_rs.Prelude.{
  by_test, ℕ, suc, [], ◌∷◌, ◌++◌, Bool, true, false, if◌then◌else◌, ◌≡◌, refl, ◌⊎◌, inl, inr,
}
use nano_kvm_usb_rs.Input.Writer.Motion.{
  Answer, replied, device_error, timed_out, lost, Turn, Turns, Writer, Flow, done, abandoned, down,
  out_of_fuel, MouseReport, answered, write_frame, write_step, and_then, after_first,
}

-- A loop that has ended by its condition has `P`; one that was abandoned has read a cancellation; one that is
-- down had no link, or lost it. It never runs out of fuel.
abbrev pub Outcome : Turns → Bool → Flow × Writer → (Writer → Type 0) → Type 0
Outcome turns link (done, w) P = P w
Outcome turns link (abandoned, w) P = (n : ℕ) × ((turns n).cancelled ≡ true)
Outcome turns link (down, w) P = (link ≡ false) ⊎ ((n : ℕ) × ((turns n).answer ≡ lost))
Outcome turns link (out_of_fuel, w) P = ⊥

-- A report was written, and nothing else of the loop's has changed.
pub record Wrote (r : MouseReport) (w w' : Writer) : Type 0 where
  pub written : w'.written ≡ w.written ++ (r ∷ [])
  pub link : w'.link ≡ w.link
  pub mode : w'.mode ≡ w.mode
  pub held : w'.held ≡ w.held

-- What a frame comes to.
abbrev Framed : Turn → MouseReport → Writer → Bool × Writer → Type 0
Framed t r w (true, w') = Wrote r w w'
Framed t r w (false, w') = (w.link ≡ false) ⊎ (t.answer ≡ lost)

answered-Framed :
    (a : Answer) (t : Turn) (r : MouseReport) (w : Writer)
    → t.answer ≡ a
    → Framed t r w (answered t r w)
unfolding answered
answered-Framed replied t r w e =
    rw (e, answered) (record { written = refl; link = refl; mode = refl; held = refl })
answered-Framed device_error t r w e =
    rw (e, answered) (record { written = refl; link = refl; mode = refl; held = refl })
answered-Framed timed_out t r w e =
    rw (e, answered) (record { written = refl; link = refl; mode = refl; held = refl })
answered-Framed lost t r w e =
    let g : (w.link ≡ false) ⊎ (t.answer ≡ lost) = inr e in rw (e, answered) (rw e at g)

write_frame-Framed : (t : Turn) (r : MouseReport) (w : Writer) → Framed t r w (write_frame t r w)
unfolding write_frame
write_frame-Framed t r w =
    by_test w.link (answered t r w) (false, w) (Framed t r w)
      (λ e. answered-Framed t.answer t r w refl) (λ e. inl e)

-- Behind a frame, by whether a cancellation is read.
Framed-Outcome :
    (turns : Turns) (r : MouseReport) (w : Writer) (c : Bool) (out : Bool × Writer)
    → (turns 0).cancelled ≡ c
    → Framed (turns 0) r w out
    → Outcome turns w.link
        (if out.0 then if c then abandoned else done else down, out.1)
        (Wrote r w)
Framed-Outcome turns r w true (true, w') e h = (0, e)
Framed-Outcome turns r w false (true, w') e h = h
Framed-Outcome turns r w c (false, w') e (inl l) = inl l
Framed-Outcome turns r w c (false, w') e (inr l) = inr (0, l)

pub write_step-Outcome :
    (turns : Turns) (r : MouseReport) (w : Writer)
    → Outcome turns w.link (write_step (turns 0) r w) (Wrote r w)
unfolding write_step
write_step-Outcome turns r w =
    Framed-Outcome turns r w (turns 0).cancelled (write_frame (turns 0) r w) refl
      (write_frame-Framed (turns 0) r w)

later :
    (turns : Turns) (link : Bool) (rest : Flow × Writer) (Q : Writer → Type 0)
    → Outcome (after_first turns) link rest Q
    → Outcome turns link rest Q
later turns link (done, w) Q o = o
later turns link (abandoned, w) Q (n, e) = (suc n, e)
later turns link (down, w) Q (inl e) = inl e
later turns link (down, w) Q (inr (n, e)) = inr (suc n, e)
later turns link (out_of_fuel, w) Q o = o

pub and_then-Outcome :
    (turns : Turns) (link : Bool) (first : Flow × Writer) (rest : Flow × Writer)
    (P Q : Writer → Type 0)
    → Outcome turns link first P
    → (P first.1 → Outcome (after_first turns) link rest Q)
    → Outcome turns link (and_then first.0 first.1 rest) Q
and_then-Outcome turns link (done, w) rest P Q o h = later turns link rest Q (h o)
and_then-Outcome turns link (abandoned, w) rest P Q o h = o
and_then-Outcome turns link (down, w) rest P Q o h = o
and_then-Outcome turns link (out_of_fuel, w) rest P Q o h = o

pub map-Outcome :
    (turns : Turns) (link : Bool) (out : Flow × Writer) (P Q : Writer → Type 0)
    → Outcome turns link out P
    → ((w : Writer) → P w → Q w)
    → Outcome turns link out Q
map-Outcome turns link (done, w) P Q o f = f w o
map-Outcome turns link (abandoned, w) P Q o f = o
map-Outcome turns link (down, w) P Q o f = o
map-Outcome turns link (out_of_fuel, w) P Q o f = o
