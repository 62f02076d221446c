-- ===== src/Proto/Reply.antt =====
-- src/link.rs: which reply frame answers which command.
use nano_kvm_usb_rs.Prelude.{
  ℕ, ◌+◌, ◌<◌, List, Bool, true, ◌||◌, ◌==◌, if◌then◌else◌, Option, none, bit_and, bit_or,
  get_elem?, arith, ◌≡◌, refl,
}
use nano_kvm_usb_rs.Prelude.Bits.{agree, agree_at}

-- `data` is a reserved word of the language: the field is called `payload`.
pub record Reply : Type 0 where
  pub cmd : ℕ
  pub payload : List ℕ

unfoldable pub answers : Reply → ℕ → Bool
answers r request = r.cmd == bit_or request 0x80 || r.cmd == bit_or request 0xC0

unfoldable pub is_error : Reply → Bool
is_error r = bit_and r.cmd 0xC0 == 0xC0

unfoldable pub error_code : Reply → Option ℕ
unfolding is_error
error_code r = if is_error r then get_elem? r.payload 0 else none

pub bit_or-success : (n : ℕ) → n < 64 → bit_or n 0x80 ≡ n + 128
unfolding agree
bit_or-success n h = agree_at (λ y. bit_or y 0x80) (λ y. y + 128) 64 n refl h

pub bit_or-error : (n : ℕ) → n < 64 → bit_or n 0xC0 ≡ n + 192
unfolding agree
bit_or-error n h = agree_at (λ y. bit_or y 0xC0) (λ y. y + 192) 64 n refl h

-- Replies are matched by their command byte alone: below the two flag bits, no reply answers two
-- different commands.
pub answers-injective :
    (r : Reply) (m n : ℕ) → m < 64 → n < 64 → answers r m ≡ true → answers r n ≡ true → m ≡ n
unfolding answers
answers-injective r m n hm hn a b =
    ground (arith, bit_or-success m hm, bit_or-error m hm, bit_or-success n hn, bit_or-error n hn)
