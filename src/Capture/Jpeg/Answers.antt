-- ===== src/Capture/Jpeg/Answers.antt =====
-- src/capture/jpeg.rs: what the parser says of any bytes.
use nano_kvm_usb_rs.Prelude.{
  ℕ, ◌+◌, ◌≤◌, ◌<◌, List, true, false, Option, none, some, ◌==◌, Result, ok, err, length, get_elem?,
  ◌≡◌, ◌||◌, ◌⊎◌,
}
use nano_kvm_usb_rs.Capture.Jpeg.{
  stop, segment, start_of_frame, kind_of, read_marker, marker_soi, JpegHeaderError, not_jpeg,
  truncated, not_a_marker, bad_segment_length, no_start_of_frame, zero_dimension, out_of_fuel,
}
use nano_kvm_usb_rs.Capture.Jpeg.Walk.{IsWalked, Truncated}

-- What an error says of the bytes.
abbrev pub Explains : List ℕ → JpegHeaderError → Type 0
Explains bytes not_jpeg =
    (m : ℕ) × (q : ℕ) × (read_marker bytes 0 ≡ ok (m, q)) × ((m == marker_soi) ≡ false)
Explains bytes truncated = Truncated bytes
Explains bytes (not_a_marker p b) = (get_elem? bytes p ≡ some b) × ((b == 0xFF) ≡ false)
Explains bytes (bad_segment_length m n) =
    ((kind_of m ≡ segment) × (n < 2)) ⊎ ((kind_of m ≡ start_of_frame) × (n < 8))
Explains bytes (no_start_of_frame m) = kind_of m ≡ stop
Explains bytes (zero_dimension width height) = ((width == 0) || (height == 0)) ≡ true
Explains bytes out_of_fuel = ⊥

abbrev pub IsDimension : ℕ → Type 0
IsDimension n = (1 ≤ n) × (n < 65536)

abbrev pub Answers : List ℕ → Result (ℕ × ℕ) JpegHeaderError → Type 0
Answers bytes (ok (width, height)) = IsDimension width × IsDimension height
Answers bytes (err e) = Explains bytes e

-- A read that goes on from `p` advances by two bytes or more, and stays within the slice.
abbrev Advances : List ℕ → ℕ → ℕ → Type 0
Advances bytes p q = (p + 2 ≤ q) × (q ≤ length bytes)

abbrev Marked : List ℕ → ℕ → Result (ℕ × ℕ) JpegHeaderError → Type 0
Marked bytes p (ok (m, q)) = Advances bytes p q
Marked bytes p (err e) = Explains bytes e

abbrev Skipped : List ℕ → ℕ → Result ℕ JpegHeaderError → Type 0
Skipped bytes p (ok q) = Advances bytes p q
Skipped bytes p (err e) = Explains bytes e

-- A marker that is read at a place, for what cuts its body off.
abbrev IsRead : List ℕ → ℕ → ℕ → ℕ → Type 0
IsRead bytes p m q = IsWalked bytes p × (read_marker bytes p ≡ ok (m, q))

-- What a read gives, when it gives anything.
abbrev Holds : (ℕ → Type 0) → Option ℕ → Type 0
Holds P none = Unit
Holds P (some n) = P n

abbrev IsU16 : ℕ → Type 0
IsU16 n = n < 65536

-- The turns behind an offset, from any offset that the loop comes to and that is far enough on.
abbrev pub Continues : List ℕ → ℕ → (ℕ → Result (ℕ × ℕ) JpegHeaderError) → Type 0
Continues bytes p later =
    (q : ℕ) → p + 2 ≤ q → q ≤ length bytes → IsWalked bytes q → Answers bytes (later q)
