-- ===== src/Proto/Parser/Bounds.antt =====
-- The bound on the buffer of the parser of src/proto/frame.rs, and that `scan` runs to its end.
use nano_kvm_usb_rs.Prelude.{
  ℕ, zero, suc, ◌+◌, ◌-◌, ◌≤◌, ◌<◌, List, [], ◌∷◌, ◌++◌, false, get_or, IsByte, All, All-append,
  All-take, All-drop, length, drop, length-drop, arith, ◌≡◌, inl, inr, Bool-cases, Option-cases,
  chunks, chunks_loop,
}
use nano_kvm_usb_rs.Proto.Parser.{
  Parser, find_head, keep_last, align, take_candidate, scan_round, scan_loop, scan, enforce_bound,
  push_chunk, push_chunks, push, discard, flush_garbage, consume,
}
use nano_kvm_usb_rs.Proto.Parser.Rounds.{keep_last_bounds, buf-discard, scan_round-shrinks}
use nano_kvm_usb_rs.Proto.Parser.Accounting.{buf-flush_garbage}

abbrev pub HoldsBytes : Parser → Type 0
HoldsBytes p = All IsByte p.buf

-- At most one incomplete frame.
abbrev pub IsBounded : Parser → Type 0
IsBounded p = length p.buf ≤ 260

get_or-IsByte : (xs : List ℕ) (i : ℕ) → All IsByte xs → get_or xs i 0 < 256
get_or-IsByte [] i a = omega arith
get_or-IsByte (x ∷ xs) zero a = a.0
get_or-IsByte (x ∷ xs) (suc i) a = get_or-IsByte xs i a.1

discard-HoldsBytes : (n : ℕ) (p : Parser) → HoldsBytes p → HoldsBytes (discard n p)
discard-HoldsBytes n p a = rw (buf-discard n p) (All-drop IsByte n p.buf a)

align-HoldsBytes : (p : Parser) → HoldsBytes p → HoldsBytes (align p).1
unfolding align
align-HoldsBytes p a = elim (Option-cases (find_head p.buf)) [
  | inl e ↦ ground (arith, e, discard-HoldsBytes (length p.buf - keep_last p.buf) p a)
  | inr (i, e) ↦ ground (arith, e, discard-HoldsBytes i p a)
]

take_candidate-HoldsBytes : (p : Parser) → HoldsBytes p → HoldsBytes (take_candidate p).1
unfolding take_candidate consume
take_candidate-HoldsBytes p a =
    let all : All IsByte (flush_garbage p).buf = rw (buf-flush_garbage p) a in
    ground (
      arith,
      All-drop IsByte 1 (flush_garbage p).buf all,
      All-drop IsByte (6 + get_or p.buf 4 0) (flush_garbage p).buf all,
    )

scan_round-HoldsBytes : (p : Parser) → HoldsBytes p → HoldsBytes (scan_round p).1
unfolding scan_round
scan_round-HoldsBytes p a = elim (Bool-cases (align p).0) [
  | inl e ↦ rw e (take_candidate-HoldsBytes (align p).1 (align-HoldsBytes p a))
  | inr e ↦ rw e (align-HoldsBytes p a)
]

take_candidate_stop :
    (p : Parser) → HoldsBytes p → (take_candidate p).0 ≡ false → IsBounded (take_candidate p).1
unfolding take_candidate
take_candidate_stop p a h = ground (arith, get_or-IsByte p.buf 4 a)

align_stop : (p : Parser) → (align p).0 ≡ false → IsBounded (align p).1
unfolding align
align_stop p h = elim (Option-cases (find_head p.buf)) [
  | inl e ↦ ground (
    arith,
    e,
    keep_last_bounds p.buf,
    buf-discard (length p.buf - keep_last p.buf) p,
    length-drop (length p.buf - keep_last p.buf) p.buf,
  )
  | inr (i, e) ↦ ground (arith, e)
]

scan_round_stop :
    (p : Parser) → HoldsBytes p → (scan_round p).0 ≡ false → IsBounded (scan_round p).1
unfolding scan_round
scan_round_stop p a h = elim (Bool-cases (align p).0) [
  | inl e ↦ rw e (take_candidate_stop (align p).1 (align-HoldsBytes p a) (rw e at h))
  | inr e ↦ rw e (align_stop p e)
]

-- The fuel is enough: the loop ends by a `break`, which leaves at most one incomplete frame.
scan_loop-IsBounded :
    (fuel : ℕ) (p : Parser)
    → HoldsBytes p
    → length p.buf < fuel
    → IsBounded (scan_loop fuel p) × HoldsBytes (scan_loop fuel p)
unfolding scan_loop
scan_loop-IsBounded zero p a h = absurd (omega arith)
scan_loop-IsBounded (suc fuel) p a h = elim (Bool-cases (scan_round p).0) [
  | inl e ↦
      rw (e, scan_loop)
        (scan_loop-IsBounded fuel (scan_round p).1 (scan_round-HoldsBytes p a)
          (omega (arith, scan_round-shrinks p e)))
  | inr e ↦ rw (e, scan_loop) (scan_round_stop p a e, scan_round-HoldsBytes p a)
]

scan-IsBounded : (p : Parser) → HoldsBytes p → IsBounded (scan p) × HoldsBytes (scan p)
unfolding scan
scan-IsBounded p a =
    rw (buf-flush_garbage (scan_loop (suc (length p.buf)) p))
      (scan_loop-IsBounded (suc (length p.buf)) p a (omega arith))

-- The backstop never acts.
enforce_bound_idle : (p : Parser) → IsBounded p → enforce_bound p ≡ p
unfolding enforce_bound
enforce_bound_idle p h = ground arith

pub push_chunk-eq-scan :
    (p : Parser) (c : List ℕ)
    → HoldsBytes p
    → All IsByte c
    → push_chunk p c ≡ scan (record p { buf = p.buf ++ c })
unfolding push_chunk
push_chunk-eq-scan p c a b =
    enforce_bound_idle _ (scan-IsBounded _ (All-append IsByte p.buf c a b)).0

push_chunk-IsBounded :
    (p : Parser) (c : List ℕ)
    → HoldsBytes p
    → All IsByte c
    → IsBounded (push_chunk p c) × HoldsBytes (push_chunk p c)
push_chunk-IsBounded p c a b =
    rw (push_chunk-eq-scan p c a b) (scan-IsBounded _ (All-append IsByte p.buf c a b))

push_chunks-IsBounded :
    (p : Parser) (cs : List (List ℕ))
    → HoldsBytes p
    → IsBounded p
    → All (All IsByte) cs
    → IsBounded (push_chunks p cs) × HoldsBytes (push_chunks p cs)
unfolding push_chunks
push_chunks-IsBounded p [] a s b = (s, a)
push_chunks-IsBounded p (c ∷ cs) a s b =
    let (s', a') = push_chunk-IsBounded p c a b.0 in
    push_chunks-IsBounded (push_chunk p c) cs a' s' b.1

pub chunks_loop-IsByte :
    (fuel size : ℕ) (xs : List ℕ) → All IsByte xs → All (All IsByte) (chunks_loop fuel size xs)
unfolding chunks_loop
chunks_loop-IsByte zero size xs a = tt
chunks_loop-IsByte (suc fuel) size [] a = tt
chunks_loop-IsByte (suc fuel) size (x ∷ xs) a = (
  All-take IsByte size (x ∷ xs) a,
  chunks_loop-IsByte fuel size (drop size (x ∷ xs)) (All-drop IsByte size (x ∷ xs) a),
)

-- A parser that holds at most one incomplete frame (260 bytes) still does after a `push` of bytes
-- of any number, and holds bytes only.
pub push-IsBounded :
    (p : Parser) (bytes : List ℕ)
    → HoldsBytes p
    → IsBounded p
    → All IsByte bytes
    → IsBounded (push p bytes) × HoldsBytes (push p bytes)
unfolding push chunks
push-IsBounded p bytes a s b =
    push_chunks-IsBounded p (chunks_loop (length bytes) 4096 bytes) a s
      (chunks_loop-IsByte (length bytes) 4096 bytes b)
