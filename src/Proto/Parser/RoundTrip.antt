-- ===== src/Proto/Parser/RoundTrip.antt =====
-- What the encoder of src/proto/frame.rs writes, its parser reads, however the reads are cut.
use nano_kvm_usb_rs.Prelude.{
  ℕ, ◌+◌, ◌≤◌, ◌<◌, List, [], ◌∷◌, ◌++◌, map, append-nil, append_assoc, length, length-append,
  append_split, flatten, IsByte, All, All-append, All-of_append, subst, map-append, flatten-chunks,
  arith, ◌≡◌, refl, sym, ap, ◌∙◌, inl, inr, Bool-cases, ltb, ltb→lt, ltb_false→le, chunks,
}
use nano_kvm_usb_rs.Proto.Frame.{Frame, frame_bytes, checksum}
use nano_kvm_usb_rs.Proto.Parser.{Parser, Event, frame, scan, push, push_chunk, push_chunks, new}
use nano_kvm_usb_rs.Proto.Parser.Stream.{
  clean, scan_step, scan_stop, scan_round-frame, scan_round_partial, scan_round_nil, flush_clean,
}
use nano_kvm_usb_rs.Proto.Parser.Bounds.{push_chunk-eq-scan}

-- A frame that `Frame::encode` accepts, of bytes.
pub record IsSendable (f : Frame) : Type 0 where
  pub short : length f.payload ≤ 255
  pub addr_byte : IsByte f.addr
  pub cmd_byte : IsByte f.cmd
  pub payload_bytes : All IsByte f.payload

-- The bytes of frames sent one behind another.
abbrev pub stream : List Frame → List ℕ
stream [] = []
stream (f ∷ fs) = frame_bytes f.addr f.cmd f.payload ++ stream fs

pub length-frame_bytes :
    (f : Frame) → length (frame_bytes f.addr f.cmd f.payload) ≡ 6 + length f.payload
unfolding frame_bytes
length-frame_bytes f = omega (arith, length-append f.payload (checksum f.addr f.cmd f.payload ∷ []))

-- The state of a parser that has read the frames `done` and waits in `todo`, behind `b`.
pub record Reads (fs : List Frame) (s : List ℕ) (es : List Event) (out : Parser) : Type 0 where
  pub done : List Frame
  pub todo : List Frame
  pub left : List ℕ
  pub split : fs ≡ done ++ todo
  pub rest : left ++ s ≡ stream todo
  pub state : out ≡ clean left (es ++ map frame done)
  pub ends : s ≡ [] → left ≡ []

append-self-nil : (b s : List ℕ) → b ++ s ≡ [] → (b ≡ []) × (s ≡ [])
append-self-nil [] s e = (refl, e)
append-self-nil (x ∷ b) s e = (cc, cc)

part_of_frame :
    (f : Frame) (fs : List Frame) (b s : List ℕ)
    → b ++ s ≡ stream (f ∷ fs)
    → s ≡ []
    → length b < 6 + length f.payload
    → ⊥
part_of_frame f fs b s e z h = omega (
  arith,
  ap length e,
  ap length z,
  length-append b s,
  length-append (frame_bytes f.addr f.cmd f.payload) (stream fs),
  length-frame_bytes f,
)

scan-stream :
    (fs : List Frame) (b s : List ℕ) (es : List Event)
    → All IsSendable fs
    → b ++ s ≡ stream fs
    → Reads fs s es (scan (clean b es))
scan-stream [] b s es a e =
    let (p, q) = append-self-nil b s e in
    record {
      done = [];
      todo = [];
      left = [];
      split = refl;
      rest = q;
      state =
          rw (p, append-nil)
            (scan_stop (clean [] es) (clean [] es) (scan_round_nil es) ∙ flush_clean [] es);
      ends = λ _. refl;
    }
scan-stream (f ∷ fs) b s es a e = elim (Bool-cases (ltb (length b) (6 + length f.payload))) [
  | inl p ↦ record {
    done = [];
    todo = f ∷ fs;
    left = b;
    split = refl;
    rest = e;
    state = rw append-nil (
        scan_stop (clean b es) (clean b es)
          (scan_round_partial f b s (stream fs) es e (ltb→lt _ _ p) a.0.short)
        ∙ flush_clean b es);
    ends = λ z. absurd (part_of_frame f fs b s e z (ltb→lt _ _ p));
  }
  | inr p ↦
      (let (r, p1, p2) =
          append_split b s (frame_bytes f.addr f.cmd f.payload) (stream fs) e
            (omega (arith, length-frame_bytes f, ltb_false→le _ _ p)) in
        let next = scan-stream fs r s (es ++ (frame f ∷ [])) a.1 (sym p2) in
        record {
          done = f ∷ next.done;
          todo = next.todo;
          left = next.left;
          split = ap (λ l. f ∷ l) next.split;
          rest = next.rest;
          state =
              ap (λ l. scan (clean l es)) p1
              ∙ scan_step _ _ (scan_round-frame f r es a.0.short)
              ∙ next.state
              ∙ ap (λ l. clean next.left l) (append_assoc es (frame f ∷ []) (map frame next.done));
          ends = next.ends;
        })
]

pub frame_bytes-IsByte :
    (f : Frame) → IsSendable f → All IsByte (frame_bytes f.addr f.cmd f.payload)
unfolding frame_bytes checksum
frame_bytes-IsByte f h =
    let body = All-append IsByte f.payload _ h.payload_bytes (omega arith, tt) in
    (omega arith, (omega arith, (h.addr_byte, (h.cmd_byte, (omega arith, body)))))

stream-IsByte : (fs : List Frame) → All IsSendable fs → All IsByte (stream fs)
stream-IsByte [] a = tt
stream-IsByte (f ∷ fs) a =
    All-append IsByte _ (stream fs) (frame_bytes-IsByte f a.0) (stream-IsByte fs a.1)

-- A chunk: the parser reads on.
push_chunk-stream :
    (fs : List Frame) (b c s : List ℕ) (es : List Event)
    → All IsSendable fs
    → b ++ (c ++ s) ≡ stream fs
    → Reads fs s es (push_chunk (clean b es) c)
push_chunk-stream fs b c s es a e =
    let all = All-of_append IsByte b (c ++ s) (rw e (stream-IsByte fs a)) in
    let part = All-of_append IsByte c s all.1 in
    rw (push_chunk-eq-scan (clean b es) c all.0 part.0)
      (scan-stream fs (b ++ c) s es a (append_assoc b c s ∙ e))

regroup :
    (es : List Event) (fs gs : List Frame)
    → (es ++ map frame fs) ++ map frame gs ≡ es ++ map frame (fs ++ gs)
regroup es fs gs = simp (append_assoc, map-append)

push_chunks-stream :
    (cs : List (List ℕ)) (fs : List Frame) (b s : List ℕ) (es : List Event)
    → All IsSendable fs
    → b ++ (flatten cs ++ s) ≡ stream fs
    → (flatten cs ++ s ≡ [] → b ≡ [])
    → Reads fs s es (push_chunks (clean b es) cs)
unfolding push_chunks
push_chunks-stream [] fs b s es a e idle = record {
  done = [];
  todo = fs;
  left = b;
  split = refl;
  rest = e;
  state = rw append-nil;
  ends = idle;
}
push_chunks-stream (c ∷ cs) fs b s es a e idle =
    let first =
      push_chunk-stream fs b c (flatten cs ++ s) es a
        (ap (λ l. b ++ l) (sym (append_assoc c (flatten cs) s)) ∙ e) in
    let kept =
      All-of_append IsSendable first.done first.todo (subst (All IsSendable) first.split a) in
    let later =
      push_chunks-stream cs first.todo first.left s (es ++ map frame first.done) kept.1 first.rest
        first.ends in
    record {
      done = first.done ++ later.done;
      todo = later.todo;
      left = later.left;
      split =
          first.split
          ∙ ap (λ l. first.done ++ l) later.split
          ∙ sym (append_assoc first.done later.done later.todo);
      rest = later.rest;
      state =
          ap (λ q. push_chunks q cs) first.state
          ∙ later.state
          ∙ ap (λ l. clean later.left l) (regroup es first.done later.done);
      ends = later.ends;
    }

-- A parser fed the reads of a transport, one `push` for each.
abbrev pub push_all : Parser → List (List ℕ) → Parser
push_all p [] = p
push_all p (r ∷ rs) = push_all (push p r) rs

pub push-stream :
    (r : List ℕ) (fs : List Frame) (b s : List ℕ) (es : List Event)
    → All IsSendable fs
    → b ++ (r ++ s) ≡ stream fs
    → (r ++ s ≡ [] → b ≡ [])
    → Reads fs s es (push (clean b es) r)
unfolding push
push-stream r fs b s es a e idle =
    let whole = flatten-chunks 4096 r (omega arith) in
    push_chunks-stream (chunks 4096 r) fs b s es a (ap (λ l. b ++ (l ++ s)) whole ∙ e)
      (λ z. idle (ap (λ l. l ++ s) (sym whole) ∙ z))

pub none_left : (fs : List Frame) → [] ≡ stream fs → fs ≡ []
unfolding frame_bytes
none_left [] e = refl
none_left (f ∷ fs) e = cc

push_all_from :
    (rs : List (List ℕ)) (fs : List Frame) (b : List ℕ) (es : List Event)
    → All IsSendable fs
    → b ++ flatten rs ≡ stream fs
    → (flatten rs ≡ [] → b ≡ [])
    → push_all (clean b es) rs ≡ clean [] (es ++ map frame fs)
push_all_from [] fs b es a e idle =
    rw (idle refl, none_left fs (ap (λ l. l ++ []) (sym (idle refl)) ∙ e), append-nil)
push_all_from (r ∷ rs) fs b es a e idle =
    let first = push-stream r fs b (flatten rs) es a e idle in
    let kept =
      All-of_append IsSendable first.done first.todo (subst (All IsSendable) first.split a) in
    ap (λ q. push_all q rs) first.state
    ∙ push_all_from rs first.todo first.left (es ++ map frame first.done) kept.1 first.rest
        first.ends
    ∙ ap (clean []) (regroup es first.done first.todo)
    ∙ ap (λ l. clean [] (es ++ map frame l)) (sym first.split)

-- The bytes of any sequence of sendable frames, read in pieces of any sizes, come out of a new
-- parser as exactly those frames in order, with nothing left in the buffer and nothing reported
-- as garbage or rejected.
pub push_all-stream :
    (fs : List Frame) (reads : List (List ℕ))
    → All IsSendable fs
    → flatten reads ≡ stream fs
    → push_all new reads ≡ record new { events = map frame fs }
push_all-stream fs reads a e = push_all_from reads fs [] [] a e (λ _. refl)
