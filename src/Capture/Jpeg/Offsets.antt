-- ===== src/Capture/Jpeg/Offsets.antt =====
-- src/capture/jpeg.rs: what a read at an offset gives, when the bytes there are known.
use nano_kvm_usb_rs.Prelude.{
  ℕ, zero, suc, ◌+◌, ◌*◌, ◌/◌, ◌%◌, List, [], ◌∷◌, ◌++◌, append_assoc, false, some, ltb, ◌==◌, ok,
  length, get_elem?, drop, replicate, length-append, length-replicate, drop-append, le→ltb_false,
  ◌≡◌, refl, sym, ap, ◌∙◌, subst, arith,
}
use nano_kvm_usb_rs.Capture.Jpeg.{fill_bytes, read_marker, read_u16, skip_segment}

-- What is left of the bytes at an offset.
abbrev pub LeavesAt : List ℕ → ℕ → List ℕ → Type 0
LeavesAt bytes p after = (before : List ℕ) × (bytes ≡ before ++ after) × (length before ≡ p)

pub LeavesAt-move :
    (bytes : List ℕ) (p : ℕ) (x after : List ℕ)
    → LeavesAt bytes p (x ++ after)
    → LeavesAt bytes (p + length x) after
LeavesAt-move bytes p x after (before, e, n) = (
  before ++ x,
  e ∙ sym (append_assoc before x after),
  length-append before x ∙ ap (λ q. q + length x) n,
)

get_behind :
    (before after : List ℕ) (k : ℕ)
    → get_elem? (before ++ after) (length before + k) ≡ get_elem? after k
get_behind [] after k =
    let none_before : 0 + k ≡ k = omega arith in ap (get_elem? after) none_before
get_behind (b ∷ before) after k =
    let one_on : length (b ∷ before) + k ≡ suc (length before + k) = omega arith in
    ap (get_elem? (b ∷ (before ++ after))) one_on ∙ get_behind before after k

get_at :
    (bytes : List ℕ) (p k : ℕ) (after : List ℕ)
    → LeavesAt bytes p after
    → get_elem? bytes (p + k) ≡ get_elem? after k
get_at bytes p k after (before, e, n) =
    ap (λ l. get_elem? l (p + k)) e
    ∙ ap (λ q. get_elem? (before ++ after) (q + k)) (sym n)
    ∙ get_behind before after k

drop_at : (bytes : List ℕ) (p : ℕ) (after : List ℕ) → LeavesAt bytes p after → drop p bytes ≡ after
drop_at bytes p after (before, e, n) =
    ap (λ l. drop p l) e ∙ ap (λ q. drop q (before ++ after)) (sym n) ∙ drop-append before after

-- A marker with fill bytes before it.
abbrev pub marker_bytes : ℕ → ℕ → List ℕ
marker_bytes fills m = replicate (suc fills) 0xFF ++ (m ∷ [])

-- A 16-bit number, the high byte first.
abbrev pub be_bytes : ℕ → List ℕ
be_bytes n = (n / 256) ∷ (n % 256) ∷ []

abbrev pub IsCode : ℕ → Type 0
IsCode m = ((m == 0) ≡ false) × ((m == 0xFF) ≡ false)

fill_bytes-run :
    (k m : ℕ) (r : List ℕ) → (m == 0xFF) ≡ false → fill_bytes (replicate k 0xFF ++ (m ∷ r)) ≡ k
unfolding fill_bytes
fill_bytes-run zero m r h = rw (h, fill_bytes) refl
fill_bytes-run (suc k) m r h = ap suc (fill_bytes-run k m r h)

get_behind_fills : (k m : ℕ) (r : List ℕ) → get_elem? (replicate k 0xFF ++ (m ∷ r)) k ≡ some m
get_behind_fills zero m r = refl
get_behind_fills (suc k) m r = get_behind_fills k m r

pub read_marker-reads :
    (bytes : List ℕ) (p fills m : ℕ) (r : List ℕ)
    → LeavesAt bytes p (marker_bytes fills m ++ r)
    → IsCode m
    → read_marker bytes p ≡ ok (m, p + length (marker_bytes fills m))
unfolding read_marker
read_marker-reads bytes p fills m r l (nonzero, other) =
    let l' : LeavesAt bytes p (replicate (suc fills) 0xFF ++ (m ∷ r)) =
      subst (LeavesAt bytes p) (append_assoc (replicate (suc fills) 0xFF) (m ∷ []) r) l in
    let at_p : p + 0 ≡ p = omega arith in
    let here : get_elem? bytes p ≡ some 0xFF =
      ap (get_elem? bytes) (sym at_p) ∙ get_at bytes p 0 _ l' in
    let run : fill_bytes (drop p bytes) ≡ suc fills =
      ap fill_bytes (drop_at bytes p _ l') ∙ fill_bytes-run (suc fills) m r other in
    let behind : get_elem? bytes (p + suc fills) ≡ some m =
      get_at bytes p (suc fills) _ l' ∙ get_behind_fills (suc fills) m r in
    let size : suc (p + suc fills) ≡ p + length (marker_bytes fills m) = omega (
      arith,
      length-append (replicate (suc fills) 0xFF) (m ∷ []),
      length-replicate {A = ℕ} (suc fills) 0xFF,
    ) in
    rw (here, run, behind, nonzero, size) refl

pub read_u16-be_bytes :
    (bytes : List ℕ) (p n : ℕ) (after : List ℕ)
    → LeavesAt bytes p (be_bytes n ++ after)
    → read_u16 bytes p ≡ some n
unfolding read_u16
read_u16-be_bytes bytes p n after l =
    let at_p : p + 0 ≡ p = omega arith in
    let behind : p + 1 ≡ suc p = omega arith in
    let value : (n / 256) * 256 + n % 256 ≡ n = omega arith in
    let hi : get_elem? bytes p ≡ some (n / 256) =
      ap (get_elem? bytes) (sym at_p) ∙ get_at bytes p 0 _ l in
    let lo : get_elem? bytes (suc p) ≡ some (n % 256) =
      ap (get_elem? bytes) (sym behind) ∙ get_at bytes p 1 _ l in
    rw (hi, lo, value) refl

length-LeavesAt :
    (bytes : List ℕ) (p : ℕ) (after : List ℕ)
    → LeavesAt bytes p after
    → length bytes ≡ p + length after
length-LeavesAt bytes p after (before, e, n) =
    ap length e ∙ length-append before after ∙ ap (λ q. q + length after) n

pub skip_segment-skips :
    (bytes : List ℕ) (p m : ℕ) (body after : List ℕ)
    → LeavesAt bytes p (be_bytes (length body + 2) ++ (body ++ after))
    → skip_segment bytes p m ≡ ok (p + (length body + 2))
unfolding skip_segment
skip_segment-skips bytes p m body after l =
    let size = length-LeavesAt bytes p _ l in
    let inner = length-append body after in
    let long_enough : ltb (length body + 2) 2 ≡ false = le→ltb_false _ _ (omega arith) in
    let within : ltb (length bytes) (p + (length body + 2)) ≡ false =
      le→ltb_false _ _ (omega arith) in
    rw (read_u16-be_bytes bytes p (length body + 2) (body ++ after) l, long_enough, within) refl
