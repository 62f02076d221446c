-- ===== src/Input/Held/Slots.antt =====
-- The six slots of the keyboard report: src/input/held.rs.
use nano_kvm_usb_rs.Prelude.{
  ℕ, ◌+◌, ◌≤◌, List, [], ◌∷◌, ◌++◌, false, ◌||◌, none, some, ◌==◌, if◌then◌else◌, length, arith,
  ◌≡◌, refl, inl, inr, Bool-cases, Option-cases,
}
use nano_kvm_usb_rs.Input.Held.{
  HeldState, HeldKey, reported, suppressed, reported_usages, reported_count, holds, remove,
}

-- No key is held twice.
abbrev pub AreDistinct : List HeldKey → Type 0
AreDistinct [] = Unit
AreDistinct (k ∷ ks) = (holds k.usage ks ≡ false) × AreDistinct ks

pub record IsValid (h : HeldState) : Type 0 where
  pub distinct : AreDistinct h.keys
  pub fits : reported_count h.keys ≤ 6

pub length-reported_usages : (ks : List HeldKey) → length (reported_usages ks) ≡ reported_count ks
unfolding reported_usages reported_count
length-reported_usages [] = refl
length-reported_usages (k ∷ ks) = ground (arith, length-reported_usages ks)

holds-append :
    (u : ℕ) (ks : List HeldKey) (k : HeldKey)
    → holds u (ks ++ (k ∷ [])) ≡ (holds u ks || k.usage == u)
unfolding holds
holds-append u [] k = ground arith
holds-append u (j ∷ ks) k = ground (arith, holds-append u ks k)

pub AreDistinct-append :
    (ks : List HeldKey) (k : HeldKey)
    → AreDistinct ks
    → holds k.usage ks ≡ false
    → AreDistinct (ks ++ (k ∷ []))
unfolding holds
AreDistinct-append [] k d h = (refl, tt)
AreDistinct-append (j ∷ ks) k d h =
    (ground (arith, holds-append j.usage ks k), AreDistinct-append ks k d.1 (ground arith))

pub reported_count-append :
    (ks : List HeldKey) (u : ℕ)
    → (reported_count (ks ++ (record { usage = u; status = reported } ∷ []))
        ≡ reported_count ks + 1)
      × (reported_count (ks ++ (record { usage = u; status = suppressed } ∷ []))
          ≡ reported_count ks)
unfolding reported_count
reported_count-append [] u = (refl, refl)
reported_count-append (k ∷ ks) u = ground (arith, reported_count-append ks u)

pub reported_usages-append :
    (ks : List HeldKey) (u : ℕ)
    → (reported_usages (ks ++ (record { usage = u; status = reported } ∷ []))
        ≡ reported_usages ks ++ (u ∷ []))
      × (reported_usages (ks ++ (record { usage = u; status = suppressed } ∷ []))
          ≡ reported_usages ks)
unfolding reported_usages
reported_usages-append [] u = (refl, refl)
reported_usages-append (k ∷ ks) u = ground (arith, reported_usages-append ks u)

holds-remove :
    (u v : ℕ) (ks : List HeldKey) (k : HeldKey) (others : List HeldKey)
    → remove u ks ≡ some (k, others)
    → holds v ks ≡ false
    → holds v others ≡ false
unfolding remove holds
holds-remove u v [] k others e h = cc
holds-remove u v (j ∷ ks) k others e h = elim (Option-cases (remove u ks)) [
  | inl p ↦ ground (arith, p)
  | inr ((r, rest), p) ↦ ground (arith, p, holds-remove u v ks r rest p)
]

pub AreDistinct-remove :
    (u : ℕ) (ks : List HeldKey) (k : HeldKey) (others : List HeldKey)
    → remove u ks ≡ some (k, others)
    → AreDistinct ks
    → AreDistinct others
unfolding remove
AreDistinct-remove u [] k others e d = cc
AreDistinct-remove u (j ∷ ks) k others e d = elim (Option-cases (remove u ks)) [
  | inl p ↦ ground (arith, p, d.1)
  | inr ((r, rest), p) ↦ ground (
    arith,
    p,
    d.0,
    d.1,
    holds-remove u j.usage ks r rest p d.0,
    AreDistinct-remove u ks r rest p d.1,
  )
]

pub reported_count-remove :
    (u : ℕ) (ks : List HeldKey) (k : HeldKey) (others : List HeldKey)
    → remove u ks ≡ some (k, others)
    → reported_count others ≤ reported_count ks
unfolding remove reported_count
reported_count-remove u [] k others e = cc
reported_count-remove u (j ∷ ks) k others e = elim (Option-cases (remove u ks)) [
  | inl p ↦ ground (arith, p)
  | inr ((r, rest), p) ↦ ground (arith, p, reported_count-remove u ks r rest p)
]

-- A list with every `u` taken out.
abbrev pub without : ℕ → List ℕ → List ℕ
without u [] = []
without u (v ∷ vs) = let rest = without u vs in if v == u then rest else v ∷ rest

pub without_of_not_held :
    (u : ℕ) (ks : List HeldKey)
    → holds u ks ≡ false
    → without u (reported_usages ks) ≡ reported_usages ks
unfolding holds reported_usages
without_of_not_held u [] h = refl
without_of_not_held u (k ∷ ks) h = ground (arith, without_of_not_held u ks)

pub holds_of_remove-none : (u : ℕ) (ks : List HeldKey) → remove u ks ≡ none → holds u ks ≡ false
unfolding remove holds
holds_of_remove-none u [] h = refl
holds_of_remove-none u (k ∷ ks) h = elim (Option-cases (remove u ks)) [
  | inl p ↦ ground (arith, p, holds_of_remove-none u ks p)
  | inr ((r, rest), p) ↦ ground (arith, p)
]

-- The freed slot goes to nobody: the others stay, in their order, whatever their status.
pub reported_usages-remove :
    (u : ℕ) (ks : List HeldKey) (k : HeldKey) (others : List HeldKey)
    → remove u ks ≡ some (k, others)
    → AreDistinct ks
    → reported_usages others ≡ without u (reported_usages ks)
unfolding remove reported_usages
reported_usages-remove u [] k others e d = cc
reported_usages-remove u (j ∷ ks) k others e d = elim (Bool-cases (j.usage == u)) [
  | inl p ↦
      (let gone : holds u ks ≡ false = ground (arith, p, d.0) in
        ground (arith, p, without_of_not_held u ks gone))
  | inr p ↦ elim (Option-cases (remove u ks)) [
    | inl q ↦ ground (arith, p, q)
    | inr ((r, rest), q) ↦ ground (arith, p, q, reported_usages-remove u ks r rest q d.1)
  ]
]
