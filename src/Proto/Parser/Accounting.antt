-- ===== src/Proto/Parser/Accounting.antt =====
-- Where the bytes go that the parser of src/proto/frame.rs is fed.
use nano_kvm_usb_rs.Prelude.{ℕ, ◌+◌, ◌≤◌, ◌<◌, List, [], ◌∷◌, ◌++◌, length, arith, ◌≡◌, ◌⊎◌}
use nano_kvm_usb_rs.Proto.Frame.{Frame}
use nano_kvm_usb_rs.Proto.Parser.{
  Parser, Event, frame, bad_checksum, truncated, garbage, flush_garbage,
}

-- The bytes that an event stands for once: those of a frame, and those counted as garbage.
abbrev pub counted : Event → ℕ
counted (frame f) = 6 + length f.payload
counted (bad_checksum raw) = 0
counted (truncated raw) = 0
counted (garbage n) = n

-- The bytes that an event shows, a rejected candidate included.
abbrev pub reported : Event → ℕ
reported (frame f) = 6 + length f.payload
reported (bad_checksum raw) = length raw
reported (truncated raw) = length raw
reported (garbage n) = n

-- The frames and the rejected candidates.
abbrev pub candidate : Event → ℕ
candidate (garbage n) = 0
candidate _ = 1

abbrev pub weigh : (Event → ℕ) → List Event → ℕ
weigh w [] = 0
weigh w (e ∷ es) = w e + weigh w es

pub weigh-append :
    (w : Event → ℕ) (es : List Event) (e : Event) → weigh w (es ++ (e ∷ [])) ≡ weigh w es + w e
weigh-append w [] e = omega arith
weigh-append w (d ∷ es) e = omega (arith, weigh-append w es e)

-- What the parser holds and has counted, with the bytes that a rejected candidate has reported already.
abbrev pub Exact : ℕ → Parser → Parser → Type 0
Exact n p q =
    weigh counted q.events + q.pending_garbage + length q.buf + p.suppressed
    ≡ weigh counted p.events + p.pending_garbage + length p.buf + n + q.suppressed

-- From `p`, fed `n` more bytes, to `q`, one part of the work behind the other.
record Accounts (n : ℕ) (p q : Parser) : Type 0 where
  once :
      weigh counted q.events + q.pending_garbage + length q.buf
      ≤ weigh counted p.events + p.pending_garbage + length p.buf + n
  shown :
      weigh reported p.events + p.pending_garbage + length p.buf + n + q.suppressed
      ≤ weigh reported q.events + q.pending_garbage + length q.buf + p.suppressed
  -- reported bytes are still in the buffer
  inside : p.suppressed ≤ length p.buf → q.suppressed ≤ length q.buf
  more : weigh candidate p.events ≤ weigh candidate q.events
  -- with no further candidate, each byte that a rejected one has reported leaves the buffer uncounted
  exact :
      p.suppressed ≤ length p.buf
      → weigh candidate q.events ≤ weigh candidate p.events
      → Exact n p q

pub buf-flush_garbage : (p : Parser) → (flush_garbage p).buf ≡ p.buf
unfolding flush_garbage
buf-flush_garbage p = ground arith

length_all : List (List ℕ) → ℕ
length_all [] = 0
length_all (c ∷ cs) = length c + length_all cs

-- The account of a push, the bytes of `bytes` fed to `p`.
pub record IsAccounted (fed : ℕ) (p q : Parser) : Type 0 where
  pub once :
      weigh counted q.events + q.pending_garbage + length q.buf
      ≤ weigh counted p.events + p.pending_garbage + length p.buf + fed
  pub shown :
      weigh reported p.events + p.pending_garbage + length p.buf + fed + q.suppressed
      ≤ weigh reported q.events + q.pending_garbage + length q.buf + p.suppressed
  pub inside : q.suppressed ≤ length q.buf
  pub exact : (weigh candidate p.events < weigh candidate q.events) ⊎ Exact fed p q
