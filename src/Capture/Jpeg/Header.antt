-- ===== src/Capture/Jpeg/Header.antt =====
-- src/capture/jpeg.rs: a header is read for its dimensions.
use nano_kvm_usb_rs.Prelude.{
  ℕ, suc, ◌+◌, ◌-◌, ◌≤◌, ◌<◌, List, [], ◌∷◌, ◌++◌, append_assoc, false, ltb, ◌==◌, ok, length,
  length-append, le→ltb_false, All, ◌≡◌, refl, ap, ◌∙◌, subst, arith,
}
use nano_kvm_usb_rs.Capture.Jpeg.{
  standalone, segment, start_of_frame, kind_of, read_frame, scan, dimensions, marker_soi,
}
use nano_kvm_usb_rs.Capture.Jpeg.Offsets.{
  LeavesAt, LeavesAt-move, marker_bytes, be_bytes, IsCode, read_marker-reads, read_u16-be_bytes,
  skip_segment-skips,
}

-- What stands before the frame header: a marker alone, or one with a length and a body.
pub data Segment : Type 0 where
  alone : (fills marker : ℕ) → Segment
  long : (fills marker : ℕ) → (body : List ℕ) → Segment

abbrev pub segment_bytes : Segment → List ℕ
segment_bytes (alone fills m) = marker_bytes fills m
segment_bytes (long fills m body) = marker_bytes fills m ++ (be_bytes (length body + 2) ++ body)

unfoldable pub segments_bytes : List Segment → List ℕ
segments_bytes [] = []
segments_bytes (s ∷ segments) = segment_bytes s ++ segments_bytes segments

-- The markers that the loop goes past, with a length that two bytes hold.
abbrev pub IsSkipped : Segment → Type 0
IsSkipped (alone fills m) = IsCode m × (kind_of m ≡ standalone)
IsSkipped (long fills m body) = IsCode m × (kind_of m ≡ segment) × (length body + 2 < 65536)

turn-skips :
    (bytes : List ℕ) (p fuel : ℕ) (s : Segment) (after : List ℕ)
    → LeavesAt bytes p (segment_bytes s ++ after)
    → IsSkipped s
    → scan (suc fuel) bytes p ≡ scan fuel bytes (p + length (segment_bytes s))
unfolding scan
turn-skips bytes p fuel (alone fills m) after l (code, k) =
    rw (read_marker-reads bytes p fills m after l code, k) refl
turn-skips bytes p fuel (long fills m body) after l (code, k, small) =
    let l1 : LeavesAt bytes p
        (marker_bytes fills m ++ ((be_bytes (length body + 2) ++ body) ++ after)) =
      subst (LeavesAt bytes p)
        (append_assoc (marker_bytes fills m) (be_bytes (length body + 2) ++ body) after) l in
    let l2 = LeavesAt-move bytes p (marker_bytes fills m) _ l1 in
    rw
      (
        read_marker-reads bytes p fills m _ l1 code,
        k,
        skip_segment-skips bytes (p + length (marker_bytes fills m)) m body after l2,
      )
      (ap (scan fuel bytes) (
        let inner = length-append (marker_bytes fills m) (be_bytes (length body + 2) ++ body) in
        omega arith))

segment_bytes_nonempty : (s : Segment) → 1 ≤ length (segment_bytes s)
segment_bytes_nonempty (alone fills m) = omega arith
segment_bytes_nonempty (long fills m body) = omega arith

length-segments_bytes :
    (segments : List Segment) → length segments ≤ length (segments_bytes segments)
unfolding segments_bytes
length-segments_bytes [] = omega arith
length-segments_bytes (s ∷ segments) =
    let later = length-segments_bytes segments in
    let both = length-append (segment_bytes s) (segments_bytes segments) in
    let one = segment_bytes_nonempty s in omega arith

turns-skip :
    (bytes : List ℕ) (p fuel : ℕ) (segments : List Segment) (after : List ℕ)
    → LeavesAt bytes p (segments_bytes segments ++ after)
    → All IsSkipped segments
    → scan (length segments + fuel) bytes p ≡ scan fuel bytes (p + length (segments_bytes segments))
unfolding segments_bytes
turns-skip bytes p fuel [] after l skipped =
    let none_left : 0 + fuel ≡ fuel = omega arith in
    let at_p : p ≡ p + 0 = omega arith in
    ap (λ f. scan f bytes p) none_left ∙ ap (scan fuel bytes) at_p
turns-skip bytes p fuel (s ∷ segments) after l (first, others) =
    let here : LeavesAt bytes p (segment_bytes s ++ (segments_bytes segments ++ after)) =
      subst (LeavesAt bytes p) (append_assoc (segment_bytes s) (segments_bytes segments) after) l in
    let behind = LeavesAt-move bytes p (segment_bytes s) _ here in
    let one_turn : suc (length segments) + fuel ≡ suc (length segments + fuel) = omega arith in
    let size : p + length (segment_bytes s) + length (segments_bytes segments)
        ≡ p + length (segment_bytes s ++ segments_bytes segments) =
      omega (arith, length-append (segment_bytes s) (segments_bytes segments)) in
    ap (λ f. scan f bytes p) one_turn
    ∙ turn-skips bytes p (length segments + fuel) s _ here first
    ∙ turns-skip bytes (p + length (segment_bytes s)) fuel segments after behind others
    ∙ ap (scan fuel bytes) size

read_frame-reads :
    (bytes : List ℕ) (p m n precision width height : ℕ) (after : List ℕ)
    → LeavesAt bytes p
        ((be_bytes n ++ (precision ∷ [])) ++ (be_bytes height ++ (be_bytes width ++ after)))
    → 8 ≤ n
    → (width == 0) ≡ false
    → (height == 0) ≡ false
    → read_frame bytes p m ≡ ok (width, height)
unfolding read_frame
read_frame-reads bytes p m n precision width height after l large wide high =
    let l3 = LeavesAt-move bytes p (be_bytes n ++ (precision ∷ [])) _ l in
    let l5 : LeavesAt bytes (p + 5) (be_bytes width ++ after) =
      subst (λ q. LeavesAt bytes q (be_bytes width ++ after)) (omega arith)
        (LeavesAt-move bytes (p + 3) (be_bytes height) _ l3) in
    let enough : ltb n 8 ≡ false = le→ltb_false _ _ large in
    rw
      (
        read_u16-be_bytes bytes p n _ l,
        read_u16-be_bytes bytes (p + 3) height _ l3,
        read_u16-be_bytes bytes (p + 5) width _ l5,
        enough,
        wide,
        high,
      )
      refl

-- A frame header: its marker, its length, the precision, and the height before the width.
abbrev pub frame_bytes : (fills marker n precision height width : ℕ) → List ℕ
frame_bytes fills m n precision height width =
    marker_bytes fills m
    ++ ((be_bytes n ++ (precision ∷ [])) ++ (be_bytes height ++ be_bytes width))

turn-reads :
    (bytes : List ℕ) (p fuel fills m n precision height width : ℕ) (after : List ℕ)
    → LeavesAt bytes p (frame_bytes fills m n precision height width ++ after)
    → IsCode m
    → kind_of m ≡ start_of_frame
    → 8 ≤ n
    → (width == 0) ≡ false
    → (height == 0) ≡ false
    → scan (suc fuel) bytes p ≡ ok (width, height)
unfolding scan
turn-reads bytes p fuel fills m n precision height width after l code k large wide high =
    let here : LeavesAt bytes p (
        marker_bytes fills m
        ++ ((be_bytes n ++ (precision ∷ [])) ++ (be_bytes height ++ (be_bytes width ++ after)))) =
      subst (LeavesAt bytes p) (append_assoc (marker_bytes fills m) _ after) l in
    let behind = LeavesAt-move bytes p (marker_bytes fills m) _ here in
    rw
      (
        read_marker-reads bytes p fills m _ here code,
        k,
        read_frame-reads bytes (p + length (marker_bytes fills m)) m n precision width height after
            behind large wide high,
      )
      refl

-- The segments and the frame header of an image that begins with SOI, and any bytes behind.
unfoldable pub image_bytes : (fills : ℕ) → List Segment → (frame after : List ℕ) → List ℕ
image_bytes fills segments frame after =
    marker_bytes fills marker_soi ++ (segments_bytes segments ++ (frame ++ after))

-- An image that is put together from SOI, any segments that the loop skips, a frame header
-- whose length field is 8 or more, with any precision and a width and a height other than 0, and any bytes behind,
-- with any number of fill bytes before a marker: the parser reads back the width and the height, whatever the bodies of the segments hold.
pub dimensions-image_bytes :
    (start : ℕ) (segments : List Segment) (fills m n precision height width : ℕ) (after : List ℕ)
    → All IsSkipped segments
    → IsCode m
    → kind_of m ≡ start_of_frame
    → 8 ≤ n
    → (width == 0) ≡ false
    → (height == 0) ≡ false
    → dimensions (image_bytes start segments (frame_bytes fills m n precision height width) after)
      ≡ ok (width, height)
unfolding dimensions image_bytes
dimensions-image_bytes start segments fills m n precision height width after skipped code k large
      wide high =
    let frame = frame_bytes fills m n precision height width in
    let bytes = image_bytes start segments frame after in
    let l0 : LeavesAt bytes 0 bytes = ([], refl, refl) in
    let p : ℕ = 0 + length (marker_bytes start marker_soi) in
    let l1 : LeavesAt bytes p (segments_bytes segments ++ (frame ++ after)) =
      LeavesAt-move bytes 0 (marker_bytes start marker_soi) _ l0 in
    let l2 = LeavesAt-move bytes p (segments_bytes segments) _ l1 in
    let fits : length segments ≤ length bytes =
      let held = length-segments_bytes segments in
      let all =
        length-append (marker_bytes start marker_soi)
          (segments_bytes segments ++ (frame ++ after)) in
      let inner = length-append (segments_bytes segments) (frame ++ after) in omega arith in
    let fuel : ℕ = length bytes - length segments in
    let enough : suc (length bytes) ≡ length segments + suc fuel = omega arith in
    rw (read_marker-reads bytes 0 start marker_soi _ l0 (refl, refl)) (
      ap (λ f. scan f bytes p) enough
      ∙ turns-skip bytes p (suc fuel) segments _ l1 skipped
      ∙ turn-reads bytes (p + length (segments_bytes segments)) fuel fills m n precision height
          width after l2 code k large wide high)
