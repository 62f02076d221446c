-- ===== src/Proto/Parser/Stream.antt =====
-- One complete frame at the front of the buffer, and one that is not complete yet.
use nano_kvm_usb_rs.Prelude.{
  ℕ, zero, suc, ◌+◌, ◌%◌, ◌≤◌, ◌<◌, List, [], ◌∷◌, ◌++◌, true, false, get_or, length, take, drop,
  length-append, take-append, get_or-append_length, get_or-append_lt, append_assoc, arith, ◌≡◌,
  refl, ap, ◌∙◌, inl, inr, Bool-cases,
}
use nano_kvm_usb_rs.Proto.Frame.{Frame, head0, head1, checksum, frame_bytes}
use nano_kvm_usb_rs.Proto.Frame.Checksum.{checksum-eq-over}
use nano_kvm_usb_rs.Proto.Parser.{
  Parser, Event, frame, find_head, keep_last, starts_with_head, align, take_candidate, scan_round,
  scan_loop, scan, discard, flush_garbage, consume,
}
use nano_kvm_usb_rs.Proto.Parser.Rounds.{scan_round-shrinks}

-- Two fuels above the length give one result.
pub scan_loop-fuel :
    (f g : ℕ) (p : Parser) → length p.buf < f → length p.buf < g → scan_loop f p ≡ scan_loop g p
unfolding scan_loop
scan_loop-fuel zero g p h k = absurd (omega arith)
scan_loop-fuel (suc f) zero p h k = absurd (omega arith)
scan_loop-fuel (suc f) (suc g) p h k = elim (Bool-cases (scan_round p).0) [
  | inl e ↦
      rw (e, scan_loop)
        (scan_loop-fuel f g (scan_round p).1 (omega (arith, scan_round-shrinks p e))
          (omega (arith, scan_round-shrinks p e)))
  | inr e ↦ rw (e, scan_loop)
]

step : (p : Parser) → (scan_round p).0 ≡ true → scan p ≡ scan (scan_round p).1
unfolding scan scan_loop
step p e =
    rw (e, scan_loop)
      (ap flush_garbage (
        scan_loop-fuel (length p.buf) (suc (length (scan_round p).1.buf)) (scan_round p).1
          (scan_round-shrinks p e) (omega arith)))

stop : (p : Parser) → (scan_round p).0 ≡ false → scan p ≡ flush_garbage (scan_round p).1
unfolding scan scan_loop
stop p e = rw (e, scan_loop)

-- A round that goes on is a step of `scan`.
pub scan_step : (p q : Parser) → scan_round p ≡ (true, q) → scan p ≡ scan q
scan_step p q e = step p (ap (λ r. r.0) e) ∙ ap (λ r. scan r.1) e

-- A round that breaks ends it.
pub scan_stop : (p q : Parser) → scan_round p ≡ (false, q) → scan p ≡ flush_garbage q
scan_stop p q e = stop p (ap (λ r. r.0) e) ∙ ap (λ r. flush_garbage r.1) e

-- A parser at a frame boundary, or inside a frame: nothing was rejected or discarded.
abbrev pub clean : List ℕ → List Event → Parser
clean b es = record { buf = b; events = es; pending_garbage = 0; suppressed = 0 }

drop_after :
    (xs : List ℕ) (c : ℕ) (ys : List ℕ) → drop (suc (length xs)) ((xs ++ (c ∷ [])) ++ ys) ≡ ys
drop_after [] c ys = refl
drop_after (x ∷ xs) c ys = drop_after xs c ys

-- The bytes of a frame behind its five header bytes, with what follows the frame.
module _ (payload rest : List ℕ) (c : ℕ) (h : length payload ≤ 255) where
  abbrev tail : List ℕ
  tail = (payload ++ (c ∷ [])) ++ rest

  tail_assoc : tail ≡ payload ++ (c ∷ rest)
  tail_assoc = append_assoc payload (c ∷ []) rest

  mod_len : length payload % 256 ≡ length payload
  mod_len = omega arith

  length-tail : length tail ≡ length payload + 1 + length rest
  length-tail =
      omega (arith, length-append (payload ++ (c ∷ [])) rest, length-append payload (c ∷ []))

  take-tail : take (length payload) tail ≡ payload
  take-tail = rw tail_assoc (take-append payload (c ∷ rest))

  get_or-tail : get_or tail (length payload) 0 ≡ c
  get_or-tail = rw tail_assoc (get_or-append_length payload c rest 0)

  drop-tail : drop (suc (length payload)) tail ≡ rest
  drop-tail = drop_after payload c rest

-- A frame at the front of the buffer becomes an event, and what follows it stays. Up to six bytes
-- of it may have been reported before.
pub take_candidate-frame :
    (f : Frame) (rest : List ℕ) (es : List Event) (k : ℕ)
    → length f.payload ≤ 255
    → k ≤ 6
    → take_candidate
        (record (clean (frame_bytes f.addr f.cmd f.payload ++ rest) es) { suppressed = k })
      ≡ (true, clean rest (es ++ (frame f ∷ [])))
unfolding take_candidate frame_bytes flush_garbage consume
take_candidate-frame f rest es k h l =
    let c = checksum f.addr f.cmd f.payload in
    ground (
      arith,
      mod_len f.payload rest c h,
      length-tail f.payload rest c h,
      take-tail f.payload rest c h,
      get_or-tail f.payload rest c h,
      drop-tail f.payload rest c h,
      checksum-eq-over f.addr f.cmd f.payload,
    )

pub scan_round-frame :
    (f : Frame) (rest : List ℕ) (es : List Event)
    → length f.payload ≤ 255
    → scan_round (clean (frame_bytes f.addr f.cmd f.payload ++ rest) es)
      ≡ (true, clean rest (es ++ (frame f ∷ [])))
unfolding scan_round align starts_with_head frame_bytes
scan_round-frame f rest es h = take_candidate-frame f rest es 0 h (omega arith)

-- The beginning of a frame that is not complete yet stays as it is.
pub scan_round_partial :
    (f : Frame) (b s t : List ℕ) (es : List Event)
    → b ++ s ≡ frame_bytes f.addr f.cmd f.payload ++ t
    → length b < 6 + length f.payload
    → length f.payload ≤ 255
    → scan_round (clean b es) ≡ (false, clean b es)
unfolding scan_round align starts_with_head find_head keep_last take_candidate frame_bytes discard
scan_round_partial f [] s t es e h l = refl
scan_round_partial f (a ∷ []) s t es e h l = let first : a ≡ head0 = cc in rw first
scan_round_partial f (a ∷ b ∷ r) s t es e h l =
    let first : a ≡ head0 = cc in
    let second : b ≡ head1 = cc in
    let len : get_or (a ∷ b ∷ r ++ s) 4 0 ≡ length f.payload % 256 = ap (λ x. get_or x 4 0) e in
    ground (arith, first, second, len, get_or-append_lt (a ∷ b ∷ r) s 4 0)

pub scan_round_nil : (es : List Event) → scan_round (clean [] es) ≡ (false, clean [] es)
unfolding scan_round align starts_with_head find_head keep_last discard
scan_round_nil es = refl

pub flush_clean : (b : List ℕ) (es : List Event) → flush_garbage (clean b es) ≡ clean b es
unfolding flush_garbage
flush_clean b es = refl
