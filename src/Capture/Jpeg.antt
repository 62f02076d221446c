-- ===== src/Capture/Jpeg.antt =====
-- src/capture/jpeg.rs: the dimensions of a JPEG from its markers, without decoding it. An offset is a natural number;
-- it stays below the length of the slice and a `u16`, so its `usize` cannot wrap.
pub mod Walk
pub mod Answers
pub mod Offsets
pub mod Header
use nano_kvm_usb_rs.Prelude.{
  ℕ, zero, suc, ◌+◌, ◌*◌, List, [], ◌∷◌, Bool, true, false, ◌||◌, ◌&&◌, Option, none, some, ltb,
  leb, ◌==◌, if◌then◌else◌, Result, ok, err, length, get_elem?, drop,
}

pub data JpegHeaderError : Type 0 where
  not_jpeg truncated : JpegHeaderError
  not_a_marker : ℕ → ℕ → JpegHeaderError
  bad_segment_length : ℕ → ℕ → JpegHeaderError
  no_start_of_frame : ℕ → JpegHeaderError
  zero_dimension : ℕ → ℕ → JpegHeaderError
  out_of_fuel : JpegHeaderError

abbrev pub marker_soi : ℕ
marker_soi = 0xD8

abbrev pub marker_eoi : ℕ
marker_eoi = 0xD9

abbrev pub marker_sos : ℕ
marker_sos = 0xDA

abbrev pub marker_dht : ℕ
marker_dht = 0xC4

abbrev pub marker_jpg : ℕ
marker_jpg = 0xC8

abbrev pub marker_dac : ℕ
marker_dac = 0xCC

abbrev pub marker_tem : ℕ
marker_tem = 0x01

-- How far the run of fill bytes goes.
unfoldable pub fill_bytes : List ℕ → ℕ
fill_bytes [] = 0
fill_bytes (b ∷ bs) = let rest = fill_bytes bs in if b == 0xFF then suc rest else 0

-- The byte behind the fill bytes, which stands at `p`.
abbrev pub marker_at : ℕ → Option ℕ → Result (ℕ × ℕ) JpegHeaderError
marker_at p none = err truncated
marker_at p (some m) = if m == 0 then err (not_a_marker p 0) else ok (m, suc p)

abbrev pub first_byte :
    ℕ → Option ℕ → Result (ℕ × ℕ) JpegHeaderError → Result (ℕ × ℕ) JpegHeaderError
first_byte p none marker = err truncated
first_byte p (some found) marker = if found == 0xFF then marker else err (not_a_marker p found)

-- The marker and the offset behind it.
unfoldable pub read_marker : List ℕ → ℕ → Result (ℕ × ℕ) JpegHeaderError
unfolding fill_bytes
read_marker bytes at_offset =
    let p = at_offset + fill_bytes (drop at_offset bytes) in
    first_byte at_offset (get_elem? bytes at_offset) (marker_at p (get_elem? bytes p))

abbrev pub from_be_bytes : Option ℕ → Option ℕ → Option ℕ
from_be_bytes (some hi) (some lo) = some (hi * 256 + lo)
from_be_bytes hi lo = none

unfoldable pub read_u16 : List ℕ → ℕ → Option ℕ
read_u16 bytes off = from_be_bytes (get_elem? bytes off) (get_elem? bytes (suc off))

abbrev pub skip_length : List ℕ → ℕ → ℕ → Option ℕ → Result ℕ JpegHeaderError
skip_length bytes at_offset marker none = err truncated
skip_length bytes at_offset marker (some n) =
    if ltb n 2
    then err (bad_segment_length marker n)
    else if ltb (length bytes) (at_offset + n)
    then err truncated
    else ok (at_offset + n)

unfoldable pub skip_segment : List ℕ → ℕ → ℕ → Result ℕ JpegHeaderError
unfolding read_u16
skip_segment bytes at_offset marker = skip_length bytes at_offset marker (read_u16 bytes at_offset)

-- The arms of the match on a marker.
pub data Kind : Type 0 where
  standalone stop segment start_of_frame : Kind

unfoldable pub kind_of : ℕ → Kind
kind_of m =
    if m == marker_soi || (m == marker_tem || (leb 0xD0 m && leb m 0xD7))
    then standalone
    else if m == marker_sos || m == marker_eoi
    then stop
    else if m == marker_dht || (m == marker_jpg || m == marker_dac)
    then segment
    else if leb 0xC0 m && leb m 0xCF
    then start_of_frame
    else segment

abbrev pub sized : Option ℕ → Option ℕ → Result (ℕ × ℕ) JpegHeaderError
sized none width = err truncated
sized (some height) none = err truncated
sized (some height) (some width) =
    if width == 0 || height == 0 then err (zero_dimension width height) else ok (width, height)

abbrev pub framed : ℕ → Option ℕ → Option ℕ → Option ℕ → Result (ℕ × ℕ) JpegHeaderError
framed marker none height width = err truncated
framed marker (some n) height width =
    if ltb n 8 then err (bad_segment_length marker n) else sized height width

-- The arm of a frame header.
unfoldable pub read_frame : List ℕ → ℕ → ℕ → Result (ℕ × ℕ) JpegHeaderError
unfolding read_u16
read_frame bytes at_offset marker =
    framed marker (read_u16 bytes at_offset) (read_u16 bytes (at_offset + 3))
      (read_u16 bytes (at_offset + 5))

-- `?`.
abbrev pub and_then {ℓ κ} :
    {A : Type ℓ} {B : Type κ}
    → Result A JpegHeaderError
    → (A → Result B JpegHeaderError)
    → Result B JpegHeaderError
and_then (err e) f = err e
and_then (ok a) f = f a

-- One arm of the loop, before the turns that are left.
abbrev pub arm :
    Kind → List ℕ → ℕ → ℕ → (ℕ → Result (ℕ × ℕ) JpegHeaderError) → Result (ℕ × ℕ) JpegHeaderError
arm standalone bytes marker p later = later p
arm stop bytes marker p later = err (no_start_of_frame marker)
arm segment bytes marker p later = and_then (skip_segment bytes p marker) later
arm start_of_frame bytes marker p later = read_frame bytes p marker

-- The loop.
unfoldable pub scan : ℕ → List ℕ → ℕ → Result (ℕ × ℕ) JpegHeaderError
unfolding read_marker skip_segment kind_of read_frame
scan zero bytes at_offset = err out_of_fuel
scan (suc fuel) bytes at_offset =
    and_then (read_marker bytes at_offset)
      (λ found. arm (kind_of found.0) bytes found.0 found.1 (scan fuel bytes))

-- A turn reads two bytes or more, so the length of the slice is fuel enough.
unfoldable pub dimensions : List ℕ → Result (ℕ × ℕ) JpegHeaderError
unfolding scan
dimensions bytes = and_then (read_marker bytes 0) (λ found.
    if found.0 == marker_soi then scan (suc (length bytes)) bytes found.1 else err not_jpeg)
