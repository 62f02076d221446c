-- ===== src/Proto/Parser/Rounds.antt =====
-- What one round of `scan` does to the buffer: src/proto/frame.rs.
use nano_kvm_usb_rs.Prelude.{
  ℕ, zero, suc, ◌+◌, ◌-◌, ◌≤◌, ◌<◌, List, [], ◌∷◌, true, some, length, drop, get_or, length-drop,
  arith, ◌≡◌, refl, inl, inr, Option-cases,
}
use nano_kvm_usb_rs.Proto.Parser.{
  Parser, find_head, keep_last, align, take_candidate, scan_round, discard, flush_garbage, consume,
}

pub keep_last_bounds : (xs : List ℕ) → (keep_last xs ≤ 1) × (keep_last xs ≤ length xs)
unfolding keep_last
keep_last_bounds [] = omega arith
keep_last_bounds (a ∷ []) = ground arith
keep_last_bounds (a ∷ b ∷ r) = omega (arith, keep_last_bounds (b ∷ r))

pub find_head-lt-length : (xs : List ℕ) (i : ℕ) → find_head xs ≡ some i → i + 2 ≤ length xs
unfolding find_head
find_head-lt-length [] i h = ground arith
find_head-lt-length (a ∷ []) i h = ground arith
find_head-lt-length (a ∷ b ∷ r) i h = ground (arith, find_head-lt-length (b ∷ r) (i - 1))

pub buf-discard : (n : ℕ) (p : Parser) → (discard n p).buf ≡ drop n p.buf
unfolding discard
buf-discard zero p = refl
buf-discard (suc n) p = ground arith

-- A round that goes on has removed at least a byte.
pub take_candidate-shrinks :
    (p : Parser) → (take_candidate p).0 ≡ true → length (take_candidate p).1.buf < length p.buf
unfolding take_candidate flush_garbage consume
take_candidate-shrinks p h =
    ground (arith, length-drop 1 p.buf, length-drop (6 + get_or p.buf 4 0) p.buf)

pub align-shrinks : (p : Parser) → length (align p).1.buf ≤ length p.buf
unfolding align
align-shrinks p = elim (Option-cases (find_head p.buf)) [
  | inl e ↦ ground (
    arith,
    e,
    buf-discard (length p.buf - keep_last p.buf) p,
    length-drop (length p.buf - keep_last p.buf) p.buf,
  )
  | inr (i, e) ↦ ground (arith, e, buf-discard i p, length-drop i p.buf)
]

pub scan_round-shrinks :
    (p : Parser) → (scan_round p).0 ≡ true → length (scan_round p).1.buf < length p.buf
unfolding scan_round
scan_round-shrinks p h = ground (arith, take_candidate-shrinks (align p).1, align-shrinks p)
