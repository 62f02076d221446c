-- ===== src/Script/Compile/Refusal.antt =====
-- Which text `compile_type` refuses, and with what report: src/script/compile.rs.
use nano_kvm_usb_rs.Prelude.{
  ℕ, suc, ◌+◌, ◌≤◌, ◌<◌, List, [], ◌∷◌, ◌++◌, Bool, true, false, ◌||◌, ◌==◌, if◌then◌else◌, Result,
  ok, err, arith, ◌≡◌, refl, inl, inr, ◌⊎◌, Bool-cases, ==→eq, append_assoc, append-nil, All,
  All-append, length, length-append, ◌∙◌, subst,
}
use nano_kvm_usb_rs.Script.Steps.{Step}
use nano_kvm_usb_rs.Script.Layout.{us, key_for_char}
use nano_kvm_usb_rs.Script.Compile.{
  Places, CapsLock, CompileError, nothing_to_type, unreachable, find_unreachable, type_chars,
  compile_type, refuse_unreachable, has_key, seen,
}
use nano_kvm_usb_rs.Script.Compile.Typing.{typable, nothing_found}
use nano_kvm_usb_rs.Script.Compile.Strokes.{HasKey}

-- The place, from 1, where a character first stands in a text; 0 where it does not.
abbrev pub first : ℕ → List ℕ → ℕ
first c [] = 0
first c (d ∷ text) = if d == c then 1 else if first c text == 0 then 0 else suc (first c text)

abbrev pub NoKey : ℕ → Type 0
NoKey c = has_key (key_for_char us c) ≡ false

-- In the order of their places.
abbrev pub IsAscending : Places → Type 0
IsAscending [] = Unit
IsAscending (p ∷ []) = Unit
IsAscending (p ∷ q ∷ r) = (p.1 < q.1) × IsAscending (q ∷ r)

-- The characters of a text that have no key: each once with its first place, in order, and all.
pub record Reports (text : List ℕ) (places : Places) : Type 0 where
  pub sound : All (λ p. NoKey p.0 × (1 ≤ p.1) × (first p.0 text ≡ p.1)) places
  pub complete : (c : ℕ) → 1 ≤ first c text → NoKey c → seen c places ≡ true
  pub ordered : IsAscending places
  pub bounded : All (λ p. p.1 ≤ length text) places

first_append : (c : ℕ) (xs ys : List ℕ) → 1 ≤ first c xs → first c (xs ++ ys) ≡ first c xs
first_append c [] ys h = absurd (omega arith)
first_append c (x ∷ xs) ys h = ground (arith, first_append c xs ys)

first_last :
    (c d : ℕ) (xs : List ℕ)
    → first c xs ≡ 0
    → first c (xs ++ (d ∷ [])) ≡ (if d == c then length xs + 1 else 0)
first_last c d [] h = ground arith
first_last c d (x ∷ xs) h = ground (arith, first_last c d xs)

seen-append : (c : ℕ) (ps qs : Places) → seen c (ps ++ qs) ≡ (seen c ps || seen c qs)
unfolding seen
seen-append c [] qs = refl
seen-append c (p ∷ ps) qs = ground (arith, seen-append c ps qs)

seen_one : (c d i : ℕ) → seen c ((d, i) ∷ []) ≡ (d == c)
unfolding seen
seen_one c d i = ground arith

sound_grows :
    (text more : List ℕ) (ps : Places)
    → All (λ p. NoKey p.0 × (1 ≤ p.1) × (first p.0 text ≡ p.1)) ps
    → All (λ p. NoKey p.0 × (1 ≤ p.1) × (first p.0 (text ++ more) ≡ p.1)) ps
sound_grows text more [] a = tt
sound_grows text more (p ∷ ps) ((n, b, e), rest) =
    ((n, b, first_append p.0 text more (omega (arith, b, e)) ∙ e), sound_grows text more ps rest)

bounded_grows : (m n : ℕ) (ps : Places) → m ≤ n → All (λ p. p.1 ≤ m) ps → All (λ p. p.1 ≤ n) ps
bounded_grows m n [] h a = tt
bounded_grows m n (p ∷ ps) h a = (omega (arith, a.0), bounded_grows m n ps h a.1)

IsAscending-snoc :
    (ps : Places) (c m : ℕ)
    → IsAscending ps
    → All (λ p. p.1 ≤ m) ps
    → IsAscending (ps ++ ((c, m + 1) ∷ []))
IsAscending-snoc [] c m a b = tt
IsAscending-snoc (p ∷ []) c m a b = (omega (arith, b.0), tt)
IsAscending-snoc (p ∷ q ∷ r) c m a b = (a.0, IsAscending-snoc (q ∷ r) c m a.1 b.1)

not_seen-first :
    (text : List ℕ) (ps : Places) (c : ℕ)
    → Reports text ps
    → NoKey c
    → seen c ps ≡ false
    → first c text ≡ 0
not_seen-first text ps c r n s = ground (arith, r.complete c, n, s)

clash : {b : Bool} → b ≡ true → b ≡ false → ⊥
clash p q = cc

passes_complete :
    (text : List ℕ) (ps : Places) (c : ℕ)
    → Reports text ps
    → (has_key (key_for_char us c) ≡ true) ⊎ (seen c ps ≡ true)
    → (d : ℕ) → 1 ≤ first d (text ++ (c ∷ []))
    → NoKey d
    → seen d ps ≡ true
passes_complete text ps c r h d f n = elim (Bool-cases (first d text == 0)) [
  | inl e ↦
      (let same : c ≡ d = ==→eq c d (ground (arith, first_last d c text (==→eq _ _ e), f)) in
        elim h [ inl k ↦ absurd (clash (rw same at k) n) | inr s ↦ rw same at s ])
  | inr e ↦ r.complete d (ground (arith, e)) n
]

Reports-complete :
    (text : List ℕ) (ps : Places) (c : ℕ)
    → Reports text ps
    → (d : ℕ) → 1 ≤ first d (text ++ (c ∷ []))
    → NoKey d
    → seen d (ps ++ ((c, length text + 1) ∷ [])) ≡ true
Reports-complete text ps c r d f n = elim (Bool-cases (first d text == 0)) [
  | inl e ↦ ground (
    arith,
    first_last d c text (==→eq _ _ e),
    f,
    seen-append d ps ((c, length text + 1) ∷ []),
    seen_one d c (length text + 1),
  )
  | inr e ↦
      ground
        (arith, r.complete d (ground (arith, e)) n, seen-append d ps ((c, length text + 1) ∷ []))
]

-- The loop at a character with a key or reported before.
passes-Reports :
    (text : List ℕ) (ps : Places) (c : ℕ)
    → Reports text ps
    → (has_key (key_for_char us c) ≡ true) ⊎ (seen c ps ≡ true)
    → Reports (text ++ (c ∷ [])) ps
passes-Reports text ps c r h = record {
  sound = sound_grows text (c ∷ []) ps r.sound;
  complete = λ d f n. passes_complete text ps c r h d f n;
  ordered = r.ordered;
  bounded =
      bounded_grows (length text) (length (text ++ (c ∷ []))) ps
        (omega (arith, length-append text (c ∷ []))) r.bounded;
}

-- And at one without, which it reports.
Reports-step :
    (text : List ℕ) (ps : Places) (c : ℕ)
    → Reports text ps
    → NoKey c
    → seen c ps ≡ false
    → Reports (text ++ (c ∷ [])) (ps ++ ((c, length text + 1) ∷ []))
Reports-step text ps c r n s =
    let absent = not_seen-first text ps c r n s in
    let grown : length (text ++ (c ∷ [])) ≡ length text + 1 =
      omega (arith, length-append text (c ∷ [])) in
    record {
      sound =
          All-append _ ps _ (sound_grows text (c ∷ []) ps r.sound)
            ((n, omega arith, ground (arith, first_last c c text absent)), tt);
      complete = λ d f m. Reports-complete text ps c r d f m;
      ordered = IsAscending-snoc ps c (length text) r.ordered r.bounded;
      bounded =
          All-append _ ps _
            (bounded_grows (length text) (length (text ++ (c ∷ []))) ps (omega (arith, grown))
              r.bounded)
            (omega (arith, grown), tt);
    }

shifted_by_one :
    (done text : List ℕ) (c : ℕ) (ps : Places)
    → Reports ((done ++ (c ∷ [])) ++ text) (find_unreachable us (length (done ++ (c ∷ []))) ps text)
    → Reports (done ++ (c ∷ text)) (find_unreachable us (suc (length done)) ps text)
shifted_by_one done text c ps r =
    let same : length (done ++ (c ∷ [])) ≡ suc (length done) =
      omega (arith, length-append done (c ∷ [])) in
    subst (λ n. Reports (done ++ (c ∷ text)) (find_unreachable us n ps text)) same
      (subst (λ l. Reports l (find_unreachable us (length (done ++ (c ∷ []))) ps text))
        (append_assoc done (c ∷ []) text) r)

find_unreachable-Reports :
    (done text : List ℕ) (ps : Places)
    → Reports done ps
    → Reports (done ++ text) (find_unreachable us (length done) ps text)
unfolding find_unreachable
find_unreachable-Reports done [] ps r = rw (append-nil done) r
find_unreachable-Reports done (c ∷ text) ps r = elim (Bool-cases (has_key (key_for_char us c))) [
  | inl e ↦
      rw (e, find_unreachable)
        (shifted_by_one done text c ps (
          find_unreachable-Reports (done ++ (c ∷ [])) text ps (passes-Reports done ps c r (inl e))))
  | inr e ↦ elim (Bool-cases (seen c ps)) [
    | inl f ↦
        rw (e, f, find_unreachable)
          (shifted_by_one done text c ps (
            find_unreachable-Reports (done ++ (c ∷ [])) text ps
              (passes-Reports done ps c r (inr f))))
    | inr f ↦
        rw (e, f, find_unreachable)
          (let ps' = ps ++ ((c, length done + 1) ∷ []) in
            shifted_by_one done text c ps'
              (find_unreachable-Reports (done ++ (c ∷ [])) text ps' (Reports-step done ps c r e f)))
  ]
]

-- What each outcome says of the text.
abbrev pub Explains : List ℕ → Result (List Step) CompileError → Type 0
Explains text (ok script) = All HasKey text × (1 ≤ length text)
Explains text (err nothing_to_type) = text ≡ []
Explains text (err (unreachable us places)) = Reports text places × (1 ≤ length places)
Explains text (err e) = ⊥

refused-Explains :
    (text : List ℕ) (caps : CapsLock) (places : Places)
    → 1 ≤ length text
    → find_unreachable us 0 [] text ≡ places
    → Reports text places
    → Explains text (refuse_unreachable us places (type_chars us caps [] text))
refused-Explains text caps (p ∷ places) h e r = (r, omega arith)
refused-Explains text caps [] h e r =
    let a = (nothing_found text 0 [] e).1 in
    let (steps, made) = typable caps text a in rw made (a, h)

-- The outcome of `compile_type` says which text it is: a script for a text whose characters all have a
-- key, the report of nothing to type for the empty one, and otherwise the characters with no key, all of
-- them, each once, with the place where it first stands, in the order of the places. There is no
-- other error.
pub compile_type-Explains :
    (text : List ℕ) (caps : CapsLock) → Explains text (compile_type text us caps)
unfolding compile_type
compile_type-Explains [] caps = refl
compile_type-Explains (c ∷ text) caps =
    refused-Explains (c ∷ text) caps (find_unreachable us 0 [] (c ∷ text)) (omega arith) refl (
      find_unreachable-Reports [] (c ∷ text) [] (record {
        sound = tt;
        complete = λ d f n. absurd (omega (arith, f));
        ordered = tt;
        bounded = tt;
      }))
