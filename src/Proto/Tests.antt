-- ===== src/Proto/Tests.antt =====
-- Witnesses for the checksums, the replies and the coordinates.
use nano_kvm_usb_rs.Prelude.{ℕ, ◌*◌, ◌/◌, ◌≤◌, ◌≡◌, refl, arith, List, [], ◌∷◌, Bool, ok, ltb, ltb}
use nano_kvm_usb_rs.Proto.Frame.{checksum, checksum_over, head0, head1}
use nano_kvm_usb_rs.Proto.Frame.Checksum.{checksum-eq-over}
use nano_kvm_usb_rs.Proto.Report.{abs_coord}
use nano_kvm_usb_rs.Proto.Report.Coord.{abs_coord_inverse, abs_coord_clamps}
use nano_kvm_usb_rs.Proto.Reply.{Reply, answers, answers-injective}
use nano_kvm_usb_rs.Proto.DeviceInfo.{DeviceInfo, parse, parse-Describes, Describes}
use nano_kvm_usb_rs.Proto.UsbString.{
  product, request_byte, parse_usb_string, IsPrintable, parse_usb_string-IsPrintable,
}

abs_coord_inverse_example : abs_coord 1919 1920 * 1920 / 4096 ≡ 1919
abs_coord_inverse_example = abs_coord_inverse 1919 1920 (omega arith) (omega arith)

abs_coord_clamps_example :
    (abs_coord 5000 1920 ≤ 4095) × (abs_coord 5000 1920 ≡ abs_coord 1919 1920)
abs_coord_clamps_example = abs_coord_clamps 5000 1920

abbrev locks_push : Reply
locks_push = record { cmd = 0x81; payload = 0x38 ∷ 1 ∷ 2 ∷ [] }

answers-injective_example : ◌≡◌ {A = ℕ} 1 1
unfolding answers
answers-injective_example = answers-injective locks_push 1 1 (omega arith) (omega arith) refl refl

parse-Describes_example :
    (i : DeviceInfo) × (parse (0x38 ∷ 1 ∷ 2 ∷ 0 ∷ []) ≡ ok i) × Describes i 0x38 1 2
parse-Describes_example = parse-Describes 0x38 1 2 (0 ∷ []) (omega arith)

-- ASCII stands in for the library's decoding: what is below 32 is a control character.
abbrev plain : List ℕ → List ℕ
plain bytes = bytes

abbrev below_space : ℕ → Bool
below_space c = ltb c 32

abbrev question_mark : ℕ → List ℕ
question_mark c = b'?' ∷ []

parse_usb_string-IsPrintable_example :
    IsPrintable plain below_space question_mark (b'K' ∷ b'?' ∷ [])
    × ((rest : List ℕ) × (1 ∷ 2 ∷ b'K' ∷ 7 ∷ [] ≡ request_byte product ∷ rest))
unfolding parse_usb_string
parse_usb_string-IsPrintable_example =
    parse_usb_string-IsPrintable plain below_space question_mark (λ c. (refl, tt)) product
      (1 ∷ 2 ∷ b'K' ∷ 7 ∷ []) refl

checksum-eq-over_example : checksum 0 1 [] ≡ checksum_over (head0 ∷ head1 ∷ 0 ∷ 1 ∷ 0 ∷ [])
checksum-eq-over_example = checksum-eq-over 0 1 []
