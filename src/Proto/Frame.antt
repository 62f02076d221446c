-- ===== src/Proto/Frame.antt =====
-- src/proto/frame.rs: frames, their checksum and their encoding.
pub mod Checksum
use nano_kvm_usb_rs.Prelude.{
  ℕ, ◌+◌, ◌%◌, ◌^◌, List, [], ◌∷◌, ◌++◌, length, ltb, if◌then◌else◌, Result, ok, err,
}
use nano_kvm_usb_rs.Proto.Reply.{Reply}

abbrev pub head0 : ℕ
head0 = 0x57

abbrev pub head1 : ℕ
head1 = 0xAB

abbrev pub addr0 : ℕ
addr0 = 0

abbrev pub max_payload : ℕ
max_payload = 255

abbrev pub overhead : ℕ
overhead = 6

abbrev pub max_frame : ℕ
max_frame = overhead + max_payload

pub data EncodeError : Type 0 where
  payload_too_long : ℕ → EncodeError

-- `for b in bytes { sum += *b as u32 }`, with the wrap of `u32`.
unfoldable pub sum_bytes : ℕ → List ℕ → ℕ
sum_bytes acc [] = acc
sum_bytes acc (b ∷ bs) = sum_bytes ((acc + b) % 2 ^ 32) bs

-- `& 0xFF` is the residue modulo 256.
unfoldable pub checksum : ℕ → ℕ → List ℕ → ℕ
checksum addr cmd payload =
    sum_bytes (head0 + head1 + addr + cmd + length payload % 256) payload % 256

unfoldable pub checksum_over : List ℕ → ℕ
checksum_over bytes = sum_bytes 0 bytes % 256

-- The bytes that `encode_into` and `Frame::encode` push when the payload fits.
unfoldable pub frame_bytes : ℕ → ℕ → List ℕ → List ℕ
frame_bytes addr cmd payload =
    (head0 ∷ head1 ∷ addr ∷ cmd ∷ (length payload % 256) ∷ [])
    ++ (payload ++ (checksum addr cmd payload ∷ []))

unfoldable pub encode_into : List ℕ → ℕ → List ℕ → Result (List ℕ) EncodeError
encode_into buf cmd payload =
    if ltb max_payload (length payload)
    then err (payload_too_long (length payload))
    else ok (buf ++ frame_bytes addr0 cmd payload)

unfoldable pub encode : ℕ → List ℕ → Result (List ℕ) EncodeError
unfolding encode_into
encode cmd payload = encode_into [] cmd payload

-- `data` is a reserved word of the language: the field is called `payload`.
pub record Frame : Type 0 where
  pub addr : ℕ
  pub cmd : ℕ
  pub payload : List ℕ

-- `Frame::encode`.
unfoldable pub encode_frame : Frame → Result (List ℕ) EncodeError
encode_frame f =
    if ltb max_payload (length f.payload)
    then err (payload_too_long (length f.payload))
    else ok (frame_bytes f.addr f.cmd f.payload)

unfoldable pub into_reply : Frame → Reply
into_reply f = record { cmd = f.cmd; payload = f.payload }
