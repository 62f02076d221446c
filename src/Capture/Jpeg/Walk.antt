-- ===== src/Capture/Jpeg/Walk.antt =====
-- src/capture/jpeg.rs: how far the parser goes through the bytes, and what it means that they are cut off there.
use nano_kvm_usb_rs.Prelude.{
  Bool, if◌then◌else◌, ap, ◌∙◌, ℕ, zero, suc, ◌+◌, ◌≤◌, ◌<◌, List, [], ◌∷◌, Option, none, some,
  ◌==◌, ==→eq, ok, length, get_elem?, drop, All, ◌≡◌, refl, arith, ◌⊎◌, inl, inr, true, false,
}
use nano_kvm_usb_rs.Capture.Jpeg.{
  standalone, segment, start_of_frame, kind_of, fill_bytes, read_marker, read_u16, from_be_bytes,
  skip_segment, marker_soi,
}

-- The offsets behind SOI that the loop comes to.
pub data IsWalked (bytes : List ℕ) : ℕ → Type 0 where
  begins : (p : ℕ) → read_marker bytes 0 ≡ ok (marker_soi, p) → IsWalked bytes p
  passes :
      (p m q : ℕ)
      → IsWalked bytes p
      → read_marker bytes p ≡ ok (m, q)
      → kind_of m ≡ standalone
      → IsWalked bytes q
  skips :
      (p m q r : ℕ)
      → IsWalked bytes p
      → read_marker bytes p ≡ ok (m, q)
      → kind_of m ≡ segment
      → skip_segment bytes q m ≡ ok r
      → IsWalked bytes r

-- Where a marker is read: at the start, or where the loop comes to.
abbrev pub IsPlace : List ℕ → ℕ → Type 0
IsPlace bytes p = (p ≡ 0) ⊎ IsWalked bytes p

abbrev pub IsFill : ℕ → Type 0
IsFill b = b ≡ 0xFF

-- The body of a marker goes past the end: the two bytes of a length, a segment of that length, or the seven bytes
-- of a frame header that are read.
abbrev pub IsCut : List ℕ → ℕ → ℕ → Type 0
IsCut bytes m q =
    ((kind_of m ≡ segment)
      × ((length bytes < q + 2) ⊎ ((n : ℕ) × (read_u16 bytes q ≡ some n) × (length bytes < q + n))))
    ⊎ ((kind_of m ≡ start_of_frame) × (length bytes < q + 7))

-- From a place on there are fill bytes only, or a marker whose body goes past the end.
abbrev pub CutOff : List ℕ → ℕ → Type 0
CutOff bytes p =
    All IsFill (drop p bytes)
    ⊎ ((m : ℕ) × (q : ℕ) × (read_marker bytes p ≡ ok (m, q)) × IsCut bytes m q)

abbrev pub Truncated : List ℕ → Type 0
Truncated bytes = (p : ℕ) × IsPlace bytes p × CutOff bytes p

pub get_elem?-past : (l : List ℕ) (p : ℕ) → get_elem? l p ≡ none → length l ≤ p
get_elem?-past [] p h = omega arith
get_elem?-past (b ∷ l) zero h = cc
get_elem?-past (b ∷ l) (suc p) h = let inner = get_elem?-past l p h in omega arith

pub none-fills : (l : List ℕ) (p : ℕ) → get_elem? l p ≡ none → All IsFill (drop p l)
none-fills [] zero h = tt
none-fills [] (suc p) h = tt
none-fills (b ∷ l) zero h = cc
none-fills (b ∷ l) (suc p) h = none-fills l p h

first-IsFill :
    (b : ℕ) (l : List ℕ) (t : Bool)
    → (b == 0xFF) ≡ t
    → (get_elem? l (fill_bytes l) ≡ none → All IsFill l)
    → get_elem? (b ∷ l) (if t then suc (fill_bytes l) else 0) ≡ none
    → All IsFill (b ∷ l)
first-IsFill b l true e rest g = (==→eq b 0xFF e, rest g)
first-IsFill b l false e rest g = cc

fills_only : (l : List ℕ) → get_elem? l (fill_bytes l) ≡ none → All IsFill l
unfolding fill_bytes
fills_only [] h = tt
fills_only (b ∷ l) h = first-IsFill b l (b == 0xFF) refl (fills_only l) h

pub run-fills :
    (l : List ℕ) (p : ℕ) → get_elem? l (p + fill_bytes (drop p l)) ≡ none → All IsFill (drop p l)
run-fills l zero h =
    let start : fill_bytes l ≡ 0 + fill_bytes l = omega arith in
    fills_only l (ap (get_elem? l) start ∙ h)
run-fills [] (suc p) h = tt
run-fills (b ∷ l) (suc p) h =
    let one_on : suc (p + fill_bytes (drop p l)) ≡ suc p + fill_bytes (drop p l) = omega arith in
    run-fills l p (ap (get_elem? (b ∷ l)) one_on ∙ h)

from_be_bytes-none : (hi lo : Option ℕ) → from_be_bytes hi lo ≡ none → (hi ≡ none) ⊎ (lo ≡ none)
from_be_bytes-none none lo h = inl refl
from_be_bytes-none (some hi) none h = inr refl
from_be_bytes-none (some hi) (some lo) h = cc

pub read_u16-none : (l : List ℕ) (p : ℕ) → read_u16 l p ≡ none → length l < p + 2
unfolding read_u16
read_u16-none l p h = elim (from_be_bytes-none _ _ h) [
  | inl e ↦ (let past = get_elem?-past l p e in omega arith)
  | inr e ↦ (let past = get_elem?-past l (suc p) e in omega arith)
]
