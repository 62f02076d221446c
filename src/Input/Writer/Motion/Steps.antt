-- ===== src/Input/Writer/Motion/Steps.antt =====
-- src/input/writer.rs: `take_step` and the steps that a delta needs.
use nano_kvm_usb_rs.Prelude.{ℕ, suc, ◌+◌, ◌*◌, ◌≤◌, true, false, ◌≡◌, arith}
use nano_kvm_usb_rs.Prelude.Int.{
  ℤ, pos, negsuc, pos_part, neg_part, ◌+ℤ◌, ◌-ℤ◌, clamp, is_zero, int_laws,
}
use nano_kvm_usb_rs.Input.Writer.Motion.{take_step, cap}

abbrev pub size : ℤ → ℕ
size z = pos_part z + neg_part z

pub size-take_step : (z : ℤ) (n : ℕ) → size z ≤ 127 * suc n → size (take_step z).1 ≤ 127 * n
unfolding take_step clamp ◌-ℤ◌
size-take_step (pos m) n h = ground (arith, h)
size-take_step (negsuc m) n h = ground (arith, h)

-- What is taken and what is left make the delta.
pub take_step-splits : (z : ℤ) → (take_step z).0 +ℤ (take_step z).1 ≡ z
unfolding take_step
take_step-splits z = grind int_laws

pub is_zero-size : (z : ℤ) → is_zero z ≡ false → 1 ≤ size z
is_zero-size (pos m) h = ground (arith, h)
is_zero-size (negsuc m) h = ground (arith, h)

pub size_zero : (z : ℤ) → size z ≤ 0 → is_zero z ≡ true
size_zero (pos m) h = ground (arith, h)
size_zero (negsuc m) h = ground (arith, h)

pub is_zero-eq : (z : ℤ) → is_zero z ≡ true → z ≡ pos 0
is_zero-eq (pos m) h = ground (arith, h)
is_zero-eq (negsuc m) h = ground (arith, h)

pub size-cap : (z : ℤ) → size (cap z) ≤ 4095
unfolding cap clamp
size-cap (pos m) = ground arith
size-cap (negsuc m) = ground arith

pub size_zero-eq : (z : ℤ) → size z ≤ 0 → z ≡ pos 0
size_zero-eq z h = is_zero-eq z (size_zero z h)

pub zero_add : (z : ℤ) → pos 0 +ℤ z ≡ z
zero_add z = grind int_laws
