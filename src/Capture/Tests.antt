-- ===== src/Capture/Tests.antt =====
-- Witnesses for the slot and for the JPEG header.
use nano_kvm_usb_rs.Prelude.{
  ℕ, ◌+◌, List, [], ◌∷◌, Bool, true, false, some, ◌≡◌, refl, arith, ok, err,
}
use nano_kvm_usb_rs.Capture.Slot.{Slot, Call, puts, takes, closes, calls, wait_take, new}
use nano_kvm_usb_rs.Capture.Slot.Fate.{
  weigh, offered, consumed, displaced, refused, discarded, calls-conserve, dropped-counts,
}
use nano_kvm_usb_rs.Capture.Slot.{call, put}
use nano_kvm_usb_rs.Capture.Slot.Wait.{Returned, wait_take-Returned}
use nano_kvm_usb_rs.Capture.Jpeg.{
  kind_of, dimensions, truncated, no_start_of_frame, bad_segment_length,
}
use nano_kvm_usb_rs.Capture.Jpeg.Header.{
  Segment, alone, long, frame_bytes, image_bytes, dimensions-image_bytes,
}
use nano_kvm_usb_rs.Capture.Jpeg.Answers.{Answers}

abbrev traffic : List (Call ℕ)
traffic = puts 1 ∷ puts 2 ∷ takes ∷ puts 4 ∷ closes ∷ puts 8 ∷ []

abbrev empty_slot : Slot ℕ
empty_slot = new

calls-conserve_example :
    weigh (λ v. v) empty_slot.value + offered (λ v. v) traffic
    ≡ consumed (λ v. v) traffic empty_slot
      + displaced (λ v. v) traffic empty_slot
      + refused (λ v. v) traffic empty_slot
      + discarded (λ v. v) traffic empty_slot
      + weigh (λ v. v) (calls traffic empty_slot).value
calls-conserve_example = calls-conserve (λ v. v) traffic empty_slot

dropped-counts_example :
    (calls traffic empty_slot).dropped ≡ 0 + displaced (λ v. 1) traffic empty_slot
dropped-counts_example = dropped-counts traffic empty_slot

-- Another thread puts a value while the consumer waits, and the deadline passes before it wakes.
abbrev two_rounds : List (Bool × List (Call ℕ))
two_rounds = (false, puts 7 ∷ []) ∷ (true, []) ∷ []

wait_take-Returned_example : Returned two_rounds empty_slot (wait_take two_rounds empty_slot)
wait_take-Returned_example = wait_take-Returned two_rounds empty_slot

late_value_taken : (wait_take two_rounds empty_slot).0 ≡ some (some 7)
unfolding wait_take calls call put
late_value_taken = refl

-- An APP0 segment whose body looks like a frame header, and a marker alone with a fill byte.
abbrev before_frame : List Segment
before_frame = long 0 0xE0 (0xFF ∷ 0xC0 ∷ 0 ∷ 17 ∷ []) ∷ alone 1 0x01 ∷ []

abbrev image : List ℕ
image = image_bytes 0 before_frame (frame_bytes 2 0xC0 17 8 1080 1920) (3 ∷ 1 ∷ [])

dimensions-image_bytes_example : dimensions image ≡ ok (1920, 1080)
unfolding kind_of
dimensions-image_bytes_example =
    dimensions-image_bytes 0 before_frame 2 0xC0 17 8 1080 1920 (3 ∷ 1 ∷ [])
      (((refl, refl), refl, omega arith), (((refl, refl), refl), tt)) (refl, refl) refl
      (omega arith) refl refl

abbrev cut_image : List ℕ
cut_image = 0xFF ∷ 0xD8 ∷ 0xFF ∷ 0xC0 ∷ 0 ∷ 17 ∷ 8 ∷ 4 ∷ []

cut_image_truncated : dimensions cut_image ≡ err truncated
unfolding dimensions
cut_image_truncated = refl

no_frame_before_scan : dimensions (0xFF ∷ 0xD8 ∷ 0xFF ∷ 0xDA ∷ []) ≡ err (no_start_of_frame 0xDA)
unfolding dimensions
no_frame_before_scan = refl

-- A segment whose length does not count its own two bytes.
abbrev short_segment : List ℕ
short_segment = 0xFF ∷ 0xD8 ∷ 0xFF ∷ 0xE0 ∷ 0 ∷ 1 ∷ []

short_segment_refused : dimensions short_segment ≡ err (bad_segment_length 0xE0 1)
unfolding dimensions
short_segment_refused = refl

abbrev small_image : List ℕ
small_image = 0xFF ∷ 0xD8 ∷ 0xFF ∷ 0xC0 ∷ 0 ∷ 17 ∷ 8 ∷ 4 ∷ 56 ∷ 7 ∷ 128 ∷ 3 ∷ []
