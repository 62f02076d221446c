-- ===== src/Proto/Parser/Resync.antt =====
-- The resynchronisation of src/proto/frame.rs: a reply that the device sends with no checksum byte
-- does not cost the frame behind it.
use nano_kvm_usb_rs.Prelude.{
  ℕ, ◌+◌, ◌%◌, ◌≤◌, List, [], ◌∷◌, ◌++◌, append-nil, length, All, IsByte, chunks_one, arith, ◌≡◌,
  ◌≢◌, ap, subst, ◌∙◌, ◌⊎◌, some, true, if◌then◌else◌,
}
use nano_kvm_usb_rs.Proto.Frame.{Frame, head0, head1, frame_bytes, checksum_over, sum_bytes}
use nano_kvm_usb_rs.Proto.Parser.{
  Parser, Event, frame, bad_checksum, scan, scan_round, push, push_chunks, new, align,
  starts_with_head, take_candidate, flush_garbage, consume, find_head, discard,
}
use nano_kvm_usb_rs.Proto.Parser.Bounds.{push_chunk-eq-scan}
use nano_kvm_usb_rs.Proto.Parser.RoundTrip.{IsSendable, frame_bytes-IsByte, length-frame_bytes}
use nano_kvm_usb_rs.Proto.Parser.Stream.{
  clean, scan_step, scan_stop, scan_round_nil, flush_clean, take_candidate-frame,
}

-- The header of a reply of length 0 whose checksum byte never comes.
abbrev pub no_checksum : ℕ → ℕ → List ℕ
no_checksum addr cmd = head0 ∷ head1 ∷ addr ∷ cmd ∷ 0 ∷ []

-- The parser after the rejection: four of the reported bytes are still in front of the frame.
abbrev rejected : ℕ → ℕ → List ℕ → List Event → Parser
rejected addr cmd rest es = record {
  buf = head1 ∷ addr ∷ cmd ∷ 0 ∷ rest;
  events = es;
  pending_garbage = 0;
  suppressed = 5;
}

scan_round_reject :
    (addr cmd : ℕ) (rest : List ℕ) (es : List Event)
    → (0xAB + addr + cmd) % 256 ≢ 0
    → scan_round (clean (no_checksum addr cmd ++ (head0 ∷ rest)) es) ≡ (
      true,
      rejected addr cmd
          (head0 ∷ rest)
          (es ++ (bad_checksum (no_checksum addr cmd ++ (head0 ∷ [])) ∷ [])),
    )
unfolding scan_round align starts_with_head take_candidate flush_garbage consume checksum_over
    sum_bytes
scan_round_reject addr cmd rest es h = ground arith

find_head-skip :
    (addr cmd : ℕ) (r : List ℕ)
    → (addr ≢ head0) ⊎ (cmd ≢ head1)
    → find_head (head1 ∷ addr ∷ cmd ∷ 0 ∷ head0 ∷ head1 ∷ r) ≡ some 4
unfolding find_head
find_head-skip addr cmd r h = ground arith

scan_round_recover :
    (addr cmd : ℕ) (f : Frame) (rest : List ℕ) (es : List Event)
    → (addr ≢ head0) ⊎ (cmd ≢ head1)
    → length f.payload ≤ 255
    → scan_round (rejected addr cmd (frame_bytes f.addr f.cmd f.payload ++ rest) es)
      ≡ (true, clean rest (es ++ (frame f ∷ [])))
unfolding scan_round align starts_with_head discard frame_bytes
scan_round_recover addr cmd f rest es h l =
    rw (find_head-skip addr cmd _ h, if◌then◌else◌)
      (take_candidate-frame f rest es 1 l (omega arith))

scan_round_before :
    (f : Frame) (addr cmd : ℕ)
    → (0xAB + addr + cmd) % 256 ≢ 0
    → scan_round (clean (no_checksum addr cmd ++ frame_bytes f.addr f.cmd f.payload) []) ≡ (
      true,
      rejected addr cmd
          (frame_bytes f.addr f.cmd f.payload)
          (bad_checksum (no_checksum addr cmd ++ (head0 ∷ [])) ∷ []),
    )
unfolding frame_bytes
scan_round_before f addr cmd s = scan_round_reject addr cmd _ [] s

scan-no_checksum :
    (addr cmd : ℕ) (f : Frame)
    → (0xAB + addr + cmd) % 256 ≢ 0
    → (addr ≢ head0) ⊎ (cmd ≢ head1)
    → length f.payload ≤ 255
    → scan (clean (no_checksum addr cmd ++ frame_bytes f.addr f.cmd f.payload) [])
      ≡ clean [] (bad_checksum (no_checksum addr cmd ++ (head0 ∷ [])) ∷ frame f ∷ [])
scan-no_checksum addr cmd f s h l =
    let bytes = frame_bytes f.addr f.cmd f.payload in
    let es : List Event = bad_checksum (no_checksum addr cmd ++ (head0 ∷ [])) ∷ [] in
    scan_step _ _ (scan_round_before f addr cmd s)
    ∙ scan_step _ _ (
        subst (λ l. scan_round (rejected addr cmd l es) ≡ (true, clean [] (es ++ (frame f ∷ []))))
          (append-nil bytes) (scan_round_recover addr cmd f [] es h l))
    ∙ scan_stop _ _ (scan_round_nil (es ++ (frame f ∷ [])))
    ∙ flush_clean [] (es ++ (frame f ∷ []))

push_short :
    (x : ℕ) (xs : List ℕ)
    → length (x ∷ xs) ≤ 4096
    → All IsByte (x ∷ xs)
    → push new (x ∷ xs) ≡ scan (clean (x ∷ xs) [])
unfolding push
push_short x xs h a =
    ap (push_chunks new) (chunks_one 4096 x xs h) ∙ push_chunk-eq-scan new (x ∷ xs) tt a

-- The device's reply with no checksum byte, `57 AB addr cmd 00`, costs one rejected candidate: the
-- frame behind it is read, and none of the five bytes is counted as garbage. The five bytes must
-- not sum up with the first byte of the frame, and must not contain a second header.
pub push-no_checksum :
    (addr cmd : ℕ) (f : Frame)
    → (0xAB + addr + cmd) % 256 ≢ 0
    → (addr ≢ head0) ⊎ (cmd ≢ head1)
    → IsByte addr
    → IsByte cmd
    → IsSendable f
    → push new (no_checksum addr cmd ++ frame_bytes f.addr f.cmd f.payload)
      ≡ record new { events = bad_checksum (no_checksum addr cmd ++ (head0 ∷ [])) ∷ frame f ∷ [] }
push-no_checksum addr cmd f s h a c v =
    push_short head0 (head1 ∷ addr ∷ cmd ∷ 0 ∷ frame_bytes f.addr f.cmd f.payload)
      (omega (arith, length-frame_bytes f, v.short))
      (omega arith, (omega arith, (a, (c, (omega arith, frame_bytes-IsByte f v)))))
    ∙ scan-no_checksum addr cmd f s h v.short
