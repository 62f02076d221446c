-- ===== src/Prelude/Bits.antt =====
-- Equations between functions of a byte, checked at each value.
use nano_kvm_usb_rs.Prelude.Tests.{◌==◌, ==→eq}
use Prim.Native.Nat.{ℕ, zero, suc, ◌<◌}
use mathlib.Core.Path.{◌≡◌}
use mathlib.Core.Bool.{Bool, true, ◌&&◌}
use native.Mathlib.Omega.{arith}
use native.Mathlib.Decide.{dec_lt}

-- Whether the two functions have the same values below the bound.
module _ (f g : ℕ → ℕ) where
  unfoldable pub agree : ℕ → Bool
  agree zero = true
  agree (suc bound) = agree bound && (f bound == g bound)

  and_true : (a b : Bool) → (a && b) ≡ true → (a ≡ true) × (b ≡ true)
  and_true a b h = ground arith

  pub agree_at : (bound x : ℕ) → agree bound ≡ true → x < bound → f x ≡ g x
  unfolding agree
  agree_at zero x same below = absurd (omega arith)
  agree_at (suc bound) x same below =
      let (rest, last) = and_true (agree bound) (f bound == g bound) same in
      elim (dec_lt x bound) [
        | yes p ↦ agree_at bound x rest p
        | no p ↦ (let top : x ≡ bound = omega (arith, p) in rw top (==→eq (f bound) (g bound) last))
      ]
