-- ===== src/Viewer/Chrome/Paste/Same.antt =====
-- The equality of scripts in src/viewer/chrome/paste.rs is equality.
use nano_kvm_usb_rs.Prelude.{ℕ, List, [], ◌∷◌, Bool, true, ◌&&◌, ◌==◌, arith, ◌≡◌, refl, ==→eq, ap}
use nano_kvm_usb_rs.Script.Steps.{Step, send, wait, Label, key_label, type_label, release_label}
use nano_kvm_usb_rs.Viewer.Chrome.Paste.{same_list, same_label, same_step, same_script}

both : (a b : Bool) → (a && b) ≡ true → (a ≡ true) × (b ≡ true)
both a b h = ground arith

same_list-eq : (xs ys : List ℕ) → same_list xs ys ≡ true → xs ≡ ys
unfolding same_list
same_list-eq [] [] h = refl
same_list-eq [] (y ∷ ys) h = cc
same_list-eq (x ∷ xs) [] h = cc
same_list-eq (x ∷ xs) (y ∷ ys) h =
    let (p, q) = both (x == y) (same_list xs ys) h in
    let e = ==→eq x y p in let f = same_list-eq xs ys q in cc

same_label-eq : (l m : Label) → same_label l m ≡ true → l ≡ m
unfolding same_label
same_label-eq (key_label s) (key_label t) h = ap key_label (same_list-eq s t h)
same_label-eq (type_label c) (type_label d) h = ap type_label (==→eq c d h)
same_label-eq release_label release_label h = refl
same_label-eq (key_label s) (type_label d) h = cc
same_label-eq (key_label s) release_label h = cc
same_label-eq (type_label c) (key_label t) h = cc
same_label-eq (type_label c) release_label h = cc
same_label-eq release_label (key_label t) h = cc
same_label-eq release_label (type_label d) h = cc

same_step-eq : (a b : Step) → same_step a b ≡ true → a ≡ b
unfolding same_step
same_step-eq (wait m) (wait n) h = ap wait (==→eq m n h)
same_step-eq (wait m) (send p) h = cc
same_step-eq (send o) (wait n) h = cc
same_step-eq (send o) (send p) h =
    let (l, r) = both (same_label o.label p.label) _ h in
    let (m, k) =
      both (o.report.modifiers == p.report.modifiers) (same_list o.report.keys p.report.keys) r in
    let e = same_label-eq o.label p.label l in
    let f = ==→eq o.report.modifiers p.report.modifiers m in
    let g = same_list-eq o.report.keys p.report.keys k in cc

pub same_script-eq : (s t : List Step) → same_script s t ≡ true → s ≡ t
unfolding same_script
same_script-eq [] [] h = refl
same_script-eq [] (b ∷ t) h = cc
same_script-eq (a ∷ s) [] h = cc
same_script-eq (a ∷ s) (b ∷ t) h =
    let (p, q) = both (same_step a b) (same_script s t) h in
    let e = same_step-eq a b p in let f = same_script-eq s t q in cc
