-- ===== src/Serial/Reader/Matcher.antt =====
-- What the matcher of src/serial/reader.rs promises: the frames that arrive, by whom they go to.
use nano_kvm_usb_rs.Prelude.{
  ℕ, List, [], ◌∷◌, ◌++◌, append_assoc, append-nil, Bool, true, false, Option, none, some, ◌≡◌,
  refl, sym, ap, ◌∙◌, subst, if◌then◌else◌, inl, inr, Bool-cases,
}
use nano_kvm_usb_rs.Proto.Reply.{Reply}
use nano_kvm_usb_rs.Serial.Reader.{is_answered}

-- A command that timed out and may still be answered, the command that waits, the reply that it has
-- got, and the frames that went to the channel.
pub record Matcher : Type 0 where
  pub owed : Option ℕ
  pub wanted : Option ℕ
  pub got : Option Reply
  pub pushed : List Reply

unfoldable pub deliver : Reply → Matcher → Matcher
deliver r m =
    if is_answered m.owed r
    then record m { owed = none; pushed = m.pushed ++ (r ∷ []) }
    else if is_answered m.wanted r
    then record m { wanted = none; got = some r }
    else record m { pushed = m.pushed ++ (r ∷ []) }

unfoldable pub deliver_all : List Reply → Matcher → Matcher
deliver_all [] m = m
deliver_all (r ∷ rs) m = deliver_all rs (deliver r m)

-- The list without the first frame that the test takes.
unfoldable pub without_first : (Reply → Bool) → List Reply → List Reply
without_first p [] = []
without_first p (r ∷ rs) = let rest = without_first p rs in if p r then rs else r ∷ rest

unfoldable pub first : (Reply → Bool) → List Reply → Option Reply
first p [] = none
first p (r ∷ rs) = let rest = first p rs in if p r then some r else rest

-- The reply that a list of frames gives to `wanted` when `owed` may still be answered.
abbrev pub reply_among : Option ℕ → Option ℕ → List Reply → Option Reply
reply_among owed wanted rs = first (is_answered wanted) (without_first (is_answered owed) rs)

first_of_none : (rs : List Reply) → first (is_answered none) rs ≡ none
unfolding first
first_of_none [] = refl
first_of_none (r ∷ rs) = first_of_none rs

without_first_of_none : (rs : List Reply) → without_first (is_answered none) rs ≡ rs
unfolding without_first
without_first_of_none [] = refl
without_first_of_none (r ∷ rs) = ap (λ l. r ∷ l) (without_first_of_none rs)

-- A frame that goes to the channel.
abbrev pub pushing : Reply → Matcher → Matcher
pushing r m = record m { pushed = m.pushed ++ (r ∷ []) }

pub deliver_late :
    (r : Reply) (m : Matcher)
    → is_answered m.owed r ≡ true
    → deliver r m ≡ record (pushing r m) { owed = none }
unfolding deliver
deliver_late r m e = rw (e, deliver) refl

pub deliver_matched :
    (r : Reply) (m : Matcher)
    → is_answered m.owed r ≡ false
    → is_answered m.wanted r ≡ true
    → deliver r m ≡ record m { wanted = none; got = some r }
unfolding deliver
deliver_matched r m e f = rw (e, f, deliver) refl

pub deliver_other :
    (r : Reply) (m : Matcher)
    → is_answered m.owed r ≡ false
    → is_answered m.wanted r ≡ false
    → deliver r m ≡ pushing r m
unfolding deliver
deliver_other r m e f = rw (e, f, deliver) refl

-- How one frame is delivered.
pub data Delivery (r : Reply) (m : Matcher) : Type 0 where
  late :
      is_answered m.owed r ≡ true
      → deliver r m ≡ record (pushing r m) { owed = none }
      → Delivery r m
  matched :
      is_answered m.owed r ≡ false
      → is_answered m.wanted r ≡ true
      → deliver r m ≡ record m { wanted = none; got = some r }
      → Delivery r m
  other :
      is_answered m.owed r ≡ false
      → is_answered m.wanted r ≡ false
      → deliver r m ≡ pushing r m
      → Delivery r m

delivery : (r : Reply) (m : Matcher) → Delivery r m
delivery r m = elim (Bool-cases (is_answered m.owed r)) [
  | inl e ↦ late e (deliver_late r m e)
  | inr e ↦ elim (Bool-cases (is_answered m.wanted r)) [
    | inl f ↦ matched e f (deliver_matched r m e f)
    | inr f ↦ other e f (deliver_other r m e f)
  ]
]

-- The frames behind those that were pushed, the reply taken out.
abbrev pub Went : List Reply → List Reply → Option Reply → List Reply → Type 0
Went before rs none after = after ≡ before ++ rs
Went before rs (some r) after =
    (front : List Reply) × (back : List Reply) × (rs ≡ front ++ (r ∷ back))
    × (after ≡ before ++ (front ++ back))

Went-step :
    (before rs : List Reply) (r : Reply) (got : Option Reply) (after : List Reply)
    → Went (before ++ (r ∷ [])) rs got after
    → Went before (r ∷ rs) got after
Went-step before rs r none after w = w ∙ append_assoc before (r ∷ []) rs
Went-step before rs r (some x) after (front, back, e, w) =
    (r ∷ front, back, ap (λ l. r ∷ l) e, w ∙ append_assoc before (r ∷ []) (front ++ back))

-- With nothing wanted the reply stays as it is, and every frame goes to the channel.
settled :
    (rs : List Reply) (m : Matcher)
    → m.wanted ≡ none
    → ((deliver_all rs m).got ≡ m.got) × ((deliver_all rs m).pushed ≡ m.pushed ++ rs)
unfolding deliver_all
settled [] m h = (refl, sym (append-nil m.pushed))
settled (r ∷ rs) m h =
    let regroup = append_assoc m.pushed (r ∷ []) rs in
    elim (delivery r m) [
      | late e d ↦
          (let (g, p) = settled rs (record (pushing r m) { owed = none }) h in
            (
              ap (λ n. (deliver_all rs n).got) d ∙ g,
              ap (λ n. (deliver_all rs n).pushed) d ∙ p ∙ regroup,
            ))
      | matched e f d ↦ absurd (unwanted r m.wanted h f)
      | other e f d ↦
          (let (g, p) = settled rs (pushing r m) h in
            (
              ap (λ n. (deliver_all rs n).got) d ∙ g,
              ap (λ n. (deliver_all rs n).pushed) d ∙ p ∙ regroup,
            ))
    ]
  where
    unwanted : (r : Reply) (o : Option ℕ) → o ≡ none → is_answered o r ≡ true → ⊥
    unwanted r o h f = let g = ap (λ o. is_answered o r) h in cc

among_late :
    (owed wanted : Option ℕ) (r : Reply) (rs : List Reply)
    → is_answered owed r ≡ true
    → reply_among none wanted rs ≡ reply_among owed wanted (r ∷ rs)
unfolding without_first
among_late owed wanted r rs e =
    ap (first (is_answered wanted)) (without_first_of_none rs) ∙ rw (e, without_first) refl

among_matched :
    (owed wanted : Option ℕ) (r : Reply) (rs : List Reply)
    → is_answered owed r ≡ false
    → is_answered wanted r ≡ true
    → some r ≡ reply_among owed wanted (r ∷ rs)
unfolding without_first first
among_matched owed wanted r rs e f = rw (e, without_first) (rw (f, first) refl)

among_other :
    (owed wanted : Option ℕ) (r : Reply) (rs : List Reply)
    → is_answered owed r ≡ false
    → is_answered wanted r ≡ false
    → reply_among owed wanted rs ≡ reply_among owed wanted (r ∷ rs)
unfolding without_first first
among_other owed wanted r rs e f = rw (e, without_first) (rw (f, first) refl)

-- The reply and the channel behind a list of frames.
abbrev pub Sorts : Matcher → List Reply → Matcher → Type 0
Sorts m rs out = (out.got ≡ reply_among m.owed m.wanted rs) × Went m.pushed rs out.got out.pushed

nothing_more : (m : Matcher) (got : Option Reply) → got ≡ none → Went m.pushed [] got m.pushed
nothing_more m none h = sym (append-nil m.pushed)
nothing_more m (some r) h = absurd (impossible h)
  where
    impossible : ◌≡◌ {A = Option Reply} (some r) none → ⊥
    impossible h = cc

-- The frames that are delivered give the reply that they have for the request that waits, and all others
-- go to the channel, in order.
pub deliver_all-Sorts :
    (rs : List Reply) (m : Matcher) → m.got ≡ none → Sorts m rs (deliver_all rs m)
unfolding deliver_all first without_first
deliver_all-Sorts [] m h = (h, nothing_more m m.got h)
deliver_all-Sorts (r ∷ rs) m h = elim (delivery r m) [
  | late e d ↦
      (let n = record (pushing r m) { owed = none } in
        let (g, w) = deliver_all-Sorts rs n h in
        subst (λ k. Sorts m (r ∷ rs) (deliver_all rs k)) (sym d)
          (
            g ∙ among_late m.owed m.wanted r rs e,
            Went-step m.pushed rs r (deliver_all rs n).got (deliver_all rs n).pushed w,
          ))
  | matched e f d ↦
      (let n = record m { wanted = none; got = some r } in
        let (g, w) = settled rs n refl in
        subst (λ k. Sorts m (r ∷ rs) (deliver_all rs k)) (sym d)
          (
            g ∙ among_matched m.owed m.wanted r rs e f,
            subst (λ o. Went m.pushed (r ∷ rs) o (deliver_all rs n).pushed) (sym g)
                ([], rs, refl, w),
          ))
  | other e f d ↦
      (let n = pushing r m in
        let (g, w) = deliver_all-Sorts rs n h in
        subst (λ k. Sorts m (r ∷ rs) (deliver_all rs k)) (sym d)
          (
            g ∙ among_other m.owed m.wanted r rs e f,
            Went-step m.pushed rs r (deliver_all rs n).got (deliver_all rs n).pushed w,
          ))
]
