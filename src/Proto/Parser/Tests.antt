-- ===== src/Proto/Parser/Tests.antt =====
-- Concrete runs of the parser and the witnesses of its theorems.
use nano_kvm_usb_rs.Prelude.{ℕ, List, [], ◌∷◌, ◌++◌, ◌≡◌, refl, arith, inl, ok, chunks}
use nano_kvm_usb_rs.Proto.Frame.{
  Frame, encode, frame_bytes, checksum, checksum_over, head0, sum_bytes,
}
use nano_kvm_usb_rs.Proto.Parser.{Parser, frame, bad_checksum, garbage, push, new}
use nano_kvm_usb_rs.Proto.Parser.Bounds.{IsBounded, HoldsBytes, push-IsBounded}
use nano_kvm_usb_rs.Proto.Parser.RoundTrip.{push_all, push_all-stream, IsSendable}
use nano_kvm_usb_rs.Proto.Parser.Resync.{no_checksum, push-no_checksum}

abbrev locks_reply : Frame
locks_reply = record { addr = 0; cmd = 0x81; payload = 0x38 ∷ 1 ∷ 0 ∷ [] }

abbrev info_request : Frame
info_request = record { addr = 0; cmd = 1; payload = [] }

checksum_of_get_info : checksum 0 1 [] ≡ 3
unfolding checksum sum_bytes
checksum_of_get_info = refl

-- A rejected candidate inside a rejected candidate: the first one reports all sixteen bytes, and
-- the last five of them are counted as garbage once more.
abbrev nested : List ℕ
nested = 0x57 ∷ 0xAB ∷ 0 ∷ 0x81 ∷ 10 ∷ 0x57 ∷ 0xAB ∷ 0 ∷ 0 ∷ 0 ∷ 0xFF ∷ 1 ∷ 1 ∷ 1 ∷ 1 ∷ 1 ∷ []

nested_counts_again :
    (push new nested).events
    ≡ bad_checksum nested ∷ bad_checksum (0x57 ∷ 0xAB ∷ 0 ∷ 0 ∷ 0 ∷ 0xFF ∷ []) ∷ garbage 5 ∷ []
unfolding push chunks checksum_over sum_bytes
nested_counts_again = refl

encode_get_info : encode 1 [] ≡ ok (0x57 ∷ 0xAB ∷ 0 ∷ 1 ∷ 0 ∷ 3 ∷ [])
unfolding encode frame_bytes checksum sum_bytes
encode_get_info = refl

locks_reply-IsSendable : IsSendable locks_reply
locks_reply-IsSendable = omega arith

-- The reply in three reads, the first cut inside the header.
abbrev three_reads : List (List ℕ)
three_reads = (0x57 ∷ []) ∷ (0xAB ∷ 0 ∷ 0x81 ∷ 3 ∷ 0x38 ∷ []) ∷ (1 ∷ 0 ∷ 0xBF ∷ []) ∷ []

push_all-stream_example : push_all new three_reads ≡ record new { events = frame locks_reply ∷ [] }
unfolding frame_bytes checksum sum_bytes
push_all-stream_example =
    push_all-stream (locks_reply ∷ []) three_reads (locks_reply-IsSendable, tt) refl

push-no_checksum_example :
    push new (no_checksum 0 0xFE ++ frame_bytes 0 0x81 (0x38 ∷ 1 ∷ 0 ∷ [])) ≡ record new {
      events = bad_checksum (no_checksum 0 0xFE ++ (head0 ∷ [])) ∷ frame locks_reply ∷ [];
    }
push-no_checksum_example =
    push-no_checksum 0 0xFE locks_reply (omega arith) (inl (omega arith)) (omega arith)
      (omega arith) locks_reply-IsSendable

-- A candidate with a wrong checksum, whose bytes are behind its head still in the buffer, and the garbage that follows.
abbrev rejected : Parser
rejected = record new { buf = 0 ∷ 1 ∷ 0 ∷ 0 ∷ []; suppressed = 4 }

three_are_garbage : (push rejected (9 ∷ 9 ∷ 9 ∷ [])).events ≡ garbage 3 ∷ []
unfolding push chunks
three_are_garbage = refl

push-IsBounded_example : IsBounded (push new nested) × HoldsBytes (push new nested)
push-IsBounded_example = push-IsBounded new nested tt (omega arith) (omega arith)
