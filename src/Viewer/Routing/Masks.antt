-- ===== src/Viewer/Routing/Masks.antt =====
-- src/viewer/chrome/route.rs: the buttons that the target holds, one bit of a byte for each.
use nano_kvm_usb_rs.Prelude.{
  ℕ, ◌<◌, Bool, true, false, not, ◌&&◌, ◌||◌, ◌==◌, ==→eq, ltb, ltb→lt, if◌then◌else◌, bit_and, ◌≡◌,
  refl, sym, subst, arith,
}
use nano_kvm_usb_rs.Prelude.Bits.{agree, agree_at}
use nano_kvm_usb_rs.Viewer.Chrome.Outstanding.{Outstanding, set_bit, set_button, holds_button}

abbrev pub is_mask : ℕ → Bool
is_mask n = n == 1 || (n == 2 || (n == 4 || (n == 8 || n == 16)))

by_case : (b : Bool) {Q : Type 0} → (b ≡ true → Q) → (b ≡ false → Q) → Q
by_case true y n = y refl
by_case false y n = n refl

on_masks : (P : ℕ → Type 0) → P 1 → P 2 → P 4 → P 8 → P 16 → (n : ℕ) → is_mask n ≡ true → P n
on_masks P p1 p2 p4 p8 p16 n h =
    by_case (n == 1) (λ e. subst P (sym (==→eq n 1 e)) p1)
      (λ a.
        by_case (n == 2) (λ e. subst P (sym (==→eq n 2 e)) p2)
          (λ b.
            by_case (n == 4) (λ e. subst P (sym (==→eq n 4 e)) p4)
              (λ c.
                by_case (n == 8) (λ e. subst P (sym (==→eq n 8 e)) p8)
                  (λ d.
                    by_case (n == 16) (λ e. subst P (sym (==→eq n 16 e)) p16)
                      (λ e. absurd (none_left a b c d e))))))
  where
    none_left :
        (n == 1) ≡ false
        → (n == 2) ≡ false
        → (n == 4) ≡ false
        → (n == 8) ≡ false
        → (n == 16) ≡ false
        → ⊥
    none_left a b c d e = ground arith

abbrev same : Bool → Bool → Bool
same a b = if a then b else not b

abbrev number : Bool → ℕ
number b = if b then 1 else 0

abbrev holds_bit : ℕ → ℕ → Bool
holds_bit mask word = not (mask == 0) && not (bit_and word mask == 0)

-- What a transition of the button `n` does to a byte, as the button `m` sees it.
abbrev moves_alone : ℕ → ℕ → Bool → ℕ → Bool
moves_alone m n down word =
    same (holds_bit m (set_bit 255 n down word)) (if m == n then down else holds_bit m word)
    && ltb (set_bit 255 n down word) 256

checked : ℕ → ℕ → Bool
unfolding agree
checked m n =
    agree (λ w. number (moves_alone m n true w)) (λ w. 1) 256
    && agree (λ w. number (moves_alone m n false w)) (λ w. 1) 256

-- The five columns of a row.
checked_row :
    (m : ℕ)
    → checked m 1 ≡ true
    → checked m 2 ≡ true
    → checked m 4 ≡ true
    → checked m 8 ≡ true
    → checked m 16 ≡ true
    → (n : ℕ) → is_mask n ≡ true
    → checked m n ≡ true
checked_row m h1 h2 h4 h8 h16 n hn = on_masks (λ n. checked m n ≡ true) h1 h2 h4 h8 h16 n hn

checked_at : (m n : ℕ) → is_mask m ≡ true → is_mask n ≡ true → checked m n ≡ true
unfolding checked
checked_at m n hm hn =
    on_masks (λ m. checked m n ≡ true) (checked_row 1 refl refl refl refl refl n hn)
      (checked_row 2 refl refl refl refl refl n hn) (checked_row 4 refl refl refl refl refl n hn)
      (checked_row 8 refl refl refl refl refl n hn) (checked_row 16 refl refl refl refl refl n hn) m
      hm

number_one : (b : Bool) → number b ≡ 1 → b ≡ true
number_one true h = refl
number_one false h = absurd (omega (arith, h))

both_true : (a b : Bool) → (a && b) ≡ true → (a ≡ true) × (b ≡ true)
both_true a b h = ground arith

same_eq : (a b : Bool) → same a b ≡ true → a ≡ b
same_eq a b h = ground arith

moves_alone_at :
    (m n word : ℕ) (down : Bool)
    → is_mask m ≡ true
    → is_mask n ≡ true
    → word < 256
    → moves_alone m n down word ≡ true
unfolding checked
moves_alone_at m n word true hm hn h = number_one _ (
    agree_at (λ w. number (moves_alone m n true w)) (λ w. 1) 256 word
      (both_true _ _ (checked_at m n hm hn)).0 h)
moves_alone_at m n word false hm hn h = number_one _ (
    agree_at (λ w. number (moves_alone m n false w)) (λ w. 1) 256 word
      (both_true _ _ (checked_at m n hm hn)).1 h)

-- A button's transition moves that button and no other, and the byte stays a byte.
pub holds_button-set_button :
    (m n : ℕ) (down : Bool) (o : Outstanding)
    → is_mask m ≡ true
    → is_mask n ≡ true
    → o.buttons < 256
    → (holds_button m (set_button n down o) ≡ (if m == n then down else holds_button m o))
      × ((set_button n down o).buttons < 256)
unfolding holds_button set_button
holds_button-set_button m n down o hm hn h =
    let both = both_true _ _ (moves_alone_at m n o.buttons down hm hn h) in
    (same_eq _ _ both.0, ltb→lt _ _ both.1)
