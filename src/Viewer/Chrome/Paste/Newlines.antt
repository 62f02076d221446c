-- ===== src/Viewer/Chrome/Paste/Newlines.antt =====
-- src/viewer/chrome/paste.rs: the line endings of the clipboard.
use nano_kvm_usb_rs.Prelude.{
  ℕ, List, [], ◌∷◌, Bool, true, false, ◌&&◌, ◌==◌, if◌then◌else◌, ◌≡◌, refl, arith,
}
use nano_kvm_usb_rs.Viewer.Chrome.Paste.{normalise}

-- A text with each carriage return made a newline, and each newline directly behind a carriage
-- return left out, from whether a carriage return stands before it.
unfoldable pub with_newlines : Bool → List ℕ → List ℕ
with_newlines behind [] = []
with_newlines behind (c ∷ text) =
    let after_return = with_newlines true text in
    let after_other = with_newlines false text in
    if c == 13
    then 10 ∷ after_return
    else if behind && c == 10
    then after_other
    else c ∷ after_other

pub normalise-with_newlines : (text : List ℕ) → normalise text ≡ with_newlines false text
unfolding normalise with_newlines
normalise-with_newlines [] = refl
normalise-with_newlines (c ∷ []) = ground arith
normalise-with_newlines (c ∷ d ∷ text) =
    let rest = normalise-with_newlines (d ∷ text) in
    let behind = normalise-with_newlines text in ground (arith, rest, behind)
