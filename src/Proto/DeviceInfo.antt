-- ===== src/Proto/DeviceInfo.antt =====
-- src/proto/frame.rs: the `GET_INFO` reply. The firmware version, an `f32` with one decimal in the
-- source, is kept in tenths.
use nano_kvm_usb_rs.Prelude.{
  ℕ, ◌+◌, ◌-◌, ◌*◌, ◌/◌, ◌%◌, ◌<◌, List, [], ◌∷◌, Bool, not, ◌==◌, Result, ok, err, length, bit_and,
  arith, ◌≡◌, refl, IsByte,
}
use nano_kvm_usb_rs.Prelude.Bits.{agree, agree_at}

pub data ParseError : Type 0 where
  short_payload : ℕ → ℕ → ParseError

pub record DeviceInfo : Type 0 where
  pub version_tenths : ℕ
  pub target_connected : Bool
  pub num_lock : Bool
  pub caps_lock : Bool
  pub scroll_lock : Bool

-- `saturating_sub` is the subtraction of ℕ.
unfoldable pub parse : List ℕ → Result DeviceInfo ParseError
parse (version_char ∷ connected ∷ locks ∷ rest) = ok (record {
  version_tenths = 10 + (version_char - b'0');
  target_connected = not (connected == 0);
  num_lock = not (bit_and locks 1 == 0);
  caps_lock = not (bit_and locks 2 == 0);
  scroll_lock = not (bit_and locks 4 == 0);
})
parse payload = err (short_payload 3 (length payload))

bit0 : (l : ℕ) → IsByte l → bit_and l 1 ≡ l % 2
unfolding agree
bit0 l h = agree_at (λ y. bit_and y 1) (λ y. y % 2) 256 l refl h

bit1 : (l : ℕ) → IsByte l → bit_and l 2 ≡ l / 2 % 2 * 2
unfolding agree
bit1 l h = agree_at (λ y. bit_and y 2) (λ y. y / 2 % 2 * 2) 256 l refl h

bit2 : (l : ℕ) → IsByte l → bit_and l 4 ≡ l / 4 % 2 * 4
unfolding agree
bit2 l h = agree_at (λ y. bit_and y 4) (λ y. y / 4 % 2 * 4) 256 l refl h

-- What a payload means: the first three bytes, and nothing behind them.
abbrev pub Describes : DeviceInfo → ℕ → ℕ → ℕ → Type 0
Describes i version_char connected locks =
    (i.version_tenths ≡ 10 + (version_char - 48))
    × (i.target_connected ≡ not (connected == 0))
    × (i.num_lock ≡ (locks % 2 == 1))
    × (i.caps_lock ≡ (locks / 2 % 2 == 1))
    × (i.scroll_lock ≡ (locks / 4 % 2 == 1))

-- A payload of three bytes or more is read, its lock bits from the three low bits of the third
-- byte; bytes behind the third change nothing.
pub parse-Describes :
    (v c l : ℕ) (rest : List ℕ)
    → IsByte l
    → (i : DeviceInfo) × (parse (v ∷ c ∷ l ∷ rest) ≡ ok i) × Describes i v c l
unfolding parse
parse-Describes v c l rest h = (
  record {
    version_tenths = 10 + (v - b'0');
    target_connected = not (c == 0);
    num_lock = not (bit_and l 1 == 0);
    caps_lock = not (bit_and l 2 == 0);
    scroll_lock = not (bit_and l 4 == 0);
  },
  refl,
  (refl, refl, ground (arith, bit0 l h), ground (arith, bit1 l h), ground (arith, bit2 l h)),
)

-- A payload is refused exactly when it is shorter than three bytes, with its length.
pub parse_short :
    (payload : List ℕ) → length payload < 3 → parse payload ≡ err (short_payload 3 (length payload))
unfolding parse
parse_short [] h = refl
parse_short (a ∷ []) h = refl
parse_short (a ∷ b ∷ []) h = refl
parse_short (a ∷ b ∷ c ∷ r) h = absurd (omega arith)
