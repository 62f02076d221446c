-- ===== src/Proto/Report/Coord.antt =====
-- Absolute coordinates of src/proto/report.rs against the device's law.
use nano_kvm_usb_rs.Prelude.{ℕ, ◌+◌, ◌-◌, ◌*◌, ◌/◌, ◌≤◌, ◌<◌, min, ◌≡◌, arith}
use native.Mathlib.Decide.{dec_lt}
use nano_kvm_usb_rs.Proto.Report.{abs_coord, div_ceil}

ceil_bounds : (a b : ℕ) → 0 < b → (a ≤ div_ceil a b * b) × (div_ceil a b * b < a + b)
ceil_bounds a b h = grind arith

mul_mono : (a b c : ℕ) → a ≤ b → a * c ≤ b * c
mul_mono a b c h = grind arith

-- The largest pixel's coordinate is below the divisor.
ceil-lt-divisor : (px extent : ℕ) → px < extent → extent ≤ 4096 → div_ceil (px * 4096) extent ≤ 4095
ceil-lt-divisor px extent h k = elim (dec_lt (div_ceil (px * 4096) extent) 4096) [
  | yes p ↦ omega arith
  | no p ↦ absurd (
      omega (
        arith,
        ceil_bounds (px * 4096) extent (omega arith),
        mul_mono 4096 (div_ceil (px * 4096) extent) extent (omega arith),
      ))
]

-- The quotient is determined by its bounds.
div-eq_of_bounds : (a q : ℕ) → q * 4096 ≤ a → a < q * 4096 + 4096 → a / 4096 ≡ q
div-eq_of_bounds a q h k = omega arith

-- What the device shows for the coordinate of a pixel is that pixel, for extents up to 4096.
pub abs_coord_inverse :
    (px extent : ℕ) → px < extent → extent ≤ 4096 → abs_coord px extent * extent / 4096 ≡ px
unfolding abs_coord
abs_coord_inverse px extent h k =
    let v = div_ceil (px * 4096) extent in
    let same : abs_coord px extent ≡ v = ground (arith, ceil-lt-divisor px extent h k) in
    let (low, high) = ceil_bounds (px * 4096) extent (omega arith) in
    rw same (div-eq_of_bounds (v * extent) px low (omega arith))

-- A pixel outside the extent has the coordinate of the last pixel, and every coordinate fits the
-- device's twelve bits.
pub abs_coord_clamps :
    (px extent : ℕ)
    → (abs_coord px extent ≤ 4095) × (abs_coord px extent ≡ abs_coord (min px (extent - 1)) extent)
unfolding abs_coord
abs_coord_clamps px extent = (ground arith, ground arith)
