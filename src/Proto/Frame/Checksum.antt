-- ===== src/Proto/Frame/Checksum.antt =====
-- The two checksums of src/proto/frame.rs agree, and the wrap of `u32` does not show.
use nano_kvm_usb_rs.Prelude.{ℕ, ◌+◌, ◌%◌, List, [], ◌∷◌, ◌++◌, length, ◌≡◌, arith}
use nano_kvm_usb_rs.Proto.Frame.{sum_bytes, checksum, checksum_over, head0, head1}

-- The plain sum, with no wrap.
pub total : List ℕ → ℕ
total [] = 0
total (b ∷ bs) = b + total bs

pub sum_bytes-total : (acc : ℕ) (bs : List ℕ) → sum_bytes acc bs % 256 ≡ (acc + total bs) % 256
unfolding sum_bytes total
sum_bytes-total acc [] = omega arith
sum_bytes-total acc (b ∷ bs) = omega (arith, sum_bytes-total ((acc + b) % 4294967296) bs)

-- The transmit checksum is the receive checksum of the header and the payload that it closes.
pub checksum-eq-over :
    (addr cmd : ℕ) (payload : List ℕ)
    → checksum addr cmd payload
      ≡ checksum_over ((head0 ∷ head1 ∷ addr ∷ cmd ∷ (length payload % 256) ∷ []) ++ payload)
unfolding checksum checksum_over total
checksum-eq-over addr cmd payload = omega (
  arith,
  sum_bytes-total (head0 + head1 + addr + cmd + length payload % 256) payload,
  sum_bytes-total 0 ((head0 ∷ head1 ∷ addr ∷ cmd ∷ (length payload % 256) ∷ []) ++ payload),
)
