-- ===== src/Input/Writer/Motion/Totals.antt =====
-- src/input/writer.rs: what reports of the mouse add up to.
use nano_kvm_usb_rs.Prelude.{
  ℕ, Option, none, some, All, All-append, append_assoc, append-nil, refl, List, [], ◌∷◌, ◌++◌, ◌≡◌,
  sym, ap, ◌∙◌,
}
use nano_kvm_usb_rs.Prelude.Int.{ℤ, pos, ◌+ℤ◌, int_laws}
use nano_kvm_usb_rs.Input.Writer.Motion.{MouseReport, abs_report, rel_report}

abbrev pub x_of : MouseReport → ℤ
x_of (abs_report r) = pos 0
x_of (rel_report r) = r.dx

abbrev pub y_of : MouseReport → ℤ
y_of (abs_report r) = pos 0
y_of (rel_report r) = r.dy

abbrev pub wheel_of : MouseReport → ℤ
wheel_of (abs_report r) = r.wheel
wheel_of (rel_report r) = r.wheel

unfoldable pub total : (MouseReport → ℤ) → List MouseReport → ℤ
total part [] = pos 0
total part (r ∷ rs) = part r +ℤ total part rs

total-snoc :
    (part : MouseReport → ℤ) (rs : List MouseReport) (r : MouseReport)
    → total part (rs ++ (r ∷ [])) ≡ total part rs +ℤ part r
unfolding total
total-snoc part [] r = grind int_laws
total-snoc part (s ∷ rs) r = let e = total-snoc part rs r in rw e (grind int_laws)

-- A report with these buttons, at this position when it is an absolute one.
abbrev pub IsOf : ℕ → Option (ℕ × ℕ) → MouseReport → Type 0
IsOf buttons place (abs_report r) = (r.buttons ≡ buttons) × (place ≡ some (r.x, r.y))
IsOf buttons place (rel_report r) = r.buttons ≡ buttons

-- The reports after are those before with others behind them that have these buttons and this position, and whose
-- deltas add up to these.
pub record Adds (buttons : ℕ) (place : Option (ℕ × ℕ)) (dx dy wheel : ℤ)
    (before after : List MouseReport) : Type 0 where
  pub others : List MouseReport
  pub grown : after ≡ before ++ others
  pub all : All (IsOf buttons place) others
  pub x : total x_of after ≡ total x_of before +ℤ dx
  pub y : total y_of after ≡ total y_of before +ℤ dy
  pub v : total wheel_of after ≡ total wheel_of before +ℤ wheel

add_zero : (z : ℤ) → z ≡ z +ℤ pos 0
add_zero z = grind int_laws

-- The pointer's last absolute position.
abbrev pub pointer_after : List MouseReport → Option (ℕ × ℕ) → Option (ℕ × ℕ)
pointer_after [] p = p
pointer_after (abs_report r ∷ rs) p = pointer_after rs (some (r.x, r.y))
pointer_after (rel_report r ∷ rs) p = pointer_after rs p

abbrev pub IsAt : ℕ × ℕ → List MouseReport → Type 0
IsAt p reports = pointer_after reports none ≡ some p

pointer_after-append :
    (rs qs : List MouseReport) (p : Option (ℕ × ℕ))
    → pointer_after (rs ++ qs) p ≡ pointer_after qs (pointer_after rs p)
pointer_after-append [] qs p = refl
pointer_after-append (abs_report r ∷ rs) qs p = pointer_after-append rs qs (some (r.x, r.y))
pointer_after-append (rel_report r ∷ rs) qs p = pointer_after-append rs qs p

-- Reports at a position leave the pointer there.
stays :
    (buttons : ℕ) (place : Option (ℕ × ℕ)) (rs : List MouseReport)
    → All (IsOf buttons place) rs
    → pointer_after rs place ≡ place
stays buttons place [] a = refl
stays buttons place (abs_report r ∷ rs) a =
    ap (pointer_after rs) (sym a.0.1) ∙ stays buttons place rs a.1
stays buttons place (rel_report r ∷ rs) a = stays buttons place rs a.1

module _ {buttons : ℕ} {place : Option (ℕ × ℕ)} where
  pub Adds-IsAt :
      (before after : List MouseReport) {dx dy wheel : ℤ} {p : ℕ × ℕ}
      → place ≡ some p
      → IsAt p before
      → Adds buttons place dx dy wheel before after
      → IsAt p after
  Adds-IsAt before after {p = p} e here h =
      ap (λ l. pointer_after l none) h.grown
      ∙ pointer_after-append before h.others none
      ∙ ap (pointer_after h.others) (here ∙ sym e)
      ∙ stays buttons place h.others h.all
      ∙ e

  pub Adds-none :
      (before : List MouseReport) → Adds buttons place (pos 0) (pos 0) (pos 0) before before
  Adds-none before = record {
    others = [];
    grown = sym (append-nil before);
    all = tt;
    x = add_zero _;
    y = add_zero _;
    v = add_zero _;
  }

total-step :
    (part : MouseReport → ℤ) (before after : List MouseReport) (r : MouseReport) (left whole : ℤ)
    → total part after ≡ total part (before ++ (r ∷ [])) +ℤ left
    → part r +ℤ left ≡ whole
    → total part after ≡ total part before +ℤ whole
total-step part before after r left whole h e =
    let s = total-snoc part before r in h ∙ rw (s, ← e) (grind int_laws)

-- A report at the end shows that position.
pub snoc-IsAt :
    (before : List MouseReport) (buttons x y : ℕ) (wheel : ℤ)
    → IsAt
        (x, y)
        (before ++ (abs_report (record { buttons = buttons; x = x; y = y; wheel = wheel }) ∷ []))
snoc-IsAt before buttons x y wheel = pointer_after-append before _ none

module _ {buttons : ℕ} {place : Option (ℕ × ℕ)} where
  pub Adds-step :
      (before after : List MouseReport) (r : MouseReport) {dx dy wheel a b c : ℤ}
      → IsOf buttons place r
      → Adds buttons place a b c (before ++ (r ∷ [])) after
      → x_of r +ℤ a ≡ dx
      → y_of r +ℤ b ≡ dy
      → wheel_of r +ℤ c ≡ wheel
      → Adds buttons place dx dy wheel before after
  Adds-step before after r fine h e f g = record {
    others = r ∷ h.others;
    grown = h.grown ∙ append_assoc before (r ∷ []) h.others;
    all = (fine, h.all);
    x = total-step x_of before after r _ _ h.x e;
    y = total-step y_of before after r _ _ h.y f;
    v = total-step wheel_of before after r _ _ h.v g;
  }

  pub Adds-then :
      {before between after : List MouseReport} {dx dy wheel : ℤ}
      → Adds buttons place (pos 0) (pos 0) (pos 0) before between
      → Adds buttons place dx dy wheel between after
      → Adds buttons place dx dy wheel before after
  Adds-then {before} {between} {after} {dx} {dy} {wheel} h k = record {
    others = h.others ++ k.others;
    grown = k.grown ∙ ap (λ l. l ++ k.others) h.grown ∙ append_assoc before h.others k.others;
    all = All-append (IsOf buttons place) h.others k.others h.all k.all;
    x = k.x ∙ ap (λ t. t +ℤ dx) (h.x ∙ sym (add_zero (total x_of before)));
    y = k.y ∙ ap (λ t. t +ℤ dy) (h.y ∙ sym (add_zero (total y_of before)));
    v = k.v ∙ ap (λ t. t +ℤ wheel) (h.v ∙ sym (add_zero (total wheel_of before)));
  }
