-- ===== src/Orderbook/Twap/Searches.antt =====
-- programs/fructus/src/orderbook.rs: when the searches of `cumulative_at` among the samples find one, and which.
use fructus.Base.{
  ℕ, zero, suc, ◌≤◌, ◌≡◌, ◌≢◌, refl, ap, subst, ◌∙◌, inl, inr, Bool, true, false, Option, none,
  some, List, [], ◌∷◌, arith, leb, ◌==◌, select, All, Bool-cases, get_elem?,
}
use mathlib.Core.Option.{some-injective}
use fructus.Orderbook.Defs.{Observation}
use fructus.Orderbook.Twap.{find_slot, max_by_slot, min_by_slot, is_empty}

-- The greatest slot of the samples that pass a test, where one passes.
abbrev pub Greatest : Option Observation → ℕ → Type 0
Greatest r k = (m : Observation) × (r ≡ some m) × (k ≤ m.slot)

max_by_slot-greater :
    (n : Observation) (os : List Observation) (k : ℕ)
    → Greatest (max_by_slot os) k
    → Greatest (max_by_slot (n ∷ os)) k
unfolding max_by_slot
max_by_slot-greater n os k (m, e, h) = elim (Bool-cases (leb n.slot m.slot)) [
  | inl t ↦ rw (e, t, max_by_slot) (m, refl, h)
  | inr t ↦ rw (e, t, max_by_slot) (n, refl, ground arith)
]

max_by_slot-head :
    (n : Observation) (os : List Observation) → Greatest (max_by_slot (n ∷ os)) n.slot
unfolding max_by_slot
max_by_slot-head n os = by_rest (max_by_slot os) refl
  where
    by_rest : (r : Option Observation) → max_by_slot os ≡ r → Greatest (max_by_slot (n ∷ os)) n.slot
    by_rest none e = rw (e, max_by_slot) (n, refl, omega arith)
    by_rest (some m) e = elim (Bool-cases (leb n.slot m.slot)) [
      | inl t ↦ rw (e, t, max_by_slot) (m, refl, ground arith)
      | inr t ↦ rw (e, t, max_by_slot) (n, refl, omega arith)
    ]

pub max_by_slot-select :
    (p : Observation → Bool) (os : List Observation) (i : ℕ) (o : Observation)
    → get_elem? os i ≡ some o
    → p o ≡ true
    → Greatest (max_by_slot (select p os)) o.slot
max_by_slot-select p [] i o e h = cc
max_by_slot-select p (n ∷ os) zero o e h =
    let same : n ≡ o = some-injective n o e in
    let passes : p n ≡ true = ap p same ∙ h in
    subst (λ w. Greatest (max_by_slot (select p (n ∷ os))) w.slot) same
      (rw passes (max_by_slot-head n (select p os)))
max_by_slot-select p (n ∷ os) (suc i) o e h = elim (Bool-cases (p n)) [
  | inl t ↦ rw t (max_by_slot-greater n (select p os) o.slot (max_by_slot-select p os i o e h))
  | inr t ↦ rw t (max_by_slot-select p os i o e h)
]

min_by_slot-cons : (n : Observation) (os : List Observation) → min_by_slot (n ∷ os) ≢ none
unfolding min_by_slot
min_by_slot-cons n os = by_rest (min_by_slot os) refl
  where
    by_rest : (r : Option Observation) → min_by_slot os ≡ r → min_by_slot (n ∷ os) ≢ none
    by_rest none e = rw (e, min_by_slot) (λ h. cc)
    by_rest (some m) e = rw (e, min_by_slot) (λ h. cc)

pub min_by_slot-select :
    (p : Observation → Bool) (os : List Observation) (i : ℕ) (o : Observation)
    → get_elem? os i ≡ some o
    → p o ≡ true
    → min_by_slot (select p os) ≢ none
min_by_slot-select p [] i o e h = cc
min_by_slot-select p (n ∷ os) zero o e h =
    let passes : p n ≡ true = ap p (some-injective n o e) ∙ h in
    rw passes (min_by_slot-cons n (select p os))
min_by_slot-select p (n ∷ os) (suc i) o e h = elim (Bool-cases (p n)) [
  | inl t ↦ rw t (min_by_slot-cons n (select p os))
  | inr t ↦ rw t (min_by_slot-select p os i o e h)
]

pub find_slot-none :
    (slot : ℕ) (os : List Observation) (i : ℕ) (o : Observation)
    → get_elem? os i ≡ some o
    → find_slot slot os ≡ none
    → o.slot ≢ slot
unfolding find_slot
find_slot-none slot [] i o e = λ f. cc
find_slot-none slot (n ∷ os) zero o e = elim (Bool-cases (n.slot == slot)) [
  | inl t ↦ rw (t, find_slot) (λ f. cc)
  | inr t ↦
      rw (t, find_slot)
        (λ f. subst (λ w. w.slot ≢ slot) (some-injective n o e) (λ same. ground arith))
]
find_slot-none slot (n ∷ os) (suc i) o e = elim (Bool-cases (n.slot == slot)) [
  | inl t ↦ rw (t, find_slot) (λ f. cc)
  | inr t ↦ rw (t, find_slot) (λ f. find_slot-none slot os i o e f)
]

pub not_empty :
    (os : List Observation) (i : ℕ) (o : Observation)
    → get_elem? os i ≡ some o
    → is_empty os ≡ false
not_empty [] i o e = cc
not_empty (n ∷ os) i o e = refl

-- Every sample in a selection passes its test.
pub All-passes :
    (p : Observation → Bool) (os : List Observation) → All (λ o. p o ≡ true) (select p os)
All-passes p [] = tt
All-passes p (o ∷ os) = elim (Bool-cases (p o)) [
  | inl t ↦ rw t (t, All-passes p os)
  | inr t ↦ rw t (All-passes p os)
]
