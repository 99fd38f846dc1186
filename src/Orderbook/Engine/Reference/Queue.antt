-- ===== src/Orderbook/Engine/Reference/Queue.antt =====
-- The maker in front of the price-time queue, and the queue without it.
use fructus.Base.{
  ℕ, zero, suc, ◌≡◌, refl, ap, ◌∙◌, ◌⊎◌, inl, inr, true, false, ◌&&◌, some, List, [], ◌∷◌, arith,
  get_elem?, remove_at, select, All, Bool-cases,
}
use fructus.Orderbook.Defs.{Side, OrderKind, Order}
use fructus.Orderbook.Engine.{eligible}
use fructus.Orderbook.Engine.Reference.{ahead_of, insert_by, queue_of, queue}

insert_by-All {κ} :
    (P : Order → Type κ) (side : Side) (o : Order) (os : List Order)
    → P o
    → All P os
    → All P (insert_by side o os)
unfolding insert_by
insert_by-All P side o [] h k = (h, tt)
insert_by-All P side o (p ∷ ps) h k = elim (Bool-cases (ahead_of side p o)) [
  | inl e ↦ rw (e, insert_by) (k.0, insert_by-All P side o ps h k.1)
  | inr e ↦ rw (e, insert_by) (h, k)
]

queue_of-All {κ} :
    (P : Order → Type κ) (side : Side) (os : List Order) → All P os → All P (queue_of side os)
unfolding queue_of
queue_of-All P side [] h = tt
queue_of-All P side (o ∷ os) h =
    insert_by-All P side o (queue_of side os) h.0 (queue_of-All P side os h.1)

insert_by-first :
    (side : Side) (o : Order) (os : List Order)
    → All (λ p. ahead_of side p o ≡ false) os
    → insert_by side o os ≡ o ∷ os
unfolding insert_by
insert_by-first side o [] h = refl
insert_by-first side o (p ∷ ps) h = rw (h.0, insert_by) refl

insert_by-behind :
    (side : Side) (o m : Order) (os : List Order)
    → ahead_of side m o ≡ true
    → insert_by side o (m ∷ os) ≡ m ∷ insert_by side o os
unfolding insert_by
insert_by-behind side o m os h = rw (h, insert_by) refl

module _ (taker : Order) (kind : OrderKind) where
  -- `m` stands at the index, is ahead of the eligible makers before it, and no eligible maker behind it
  -- is ahead of `m`.
  abbrev pub Front : List Order → ℕ → Order → Type 0
  Front [] j m = ⊥
  Front (o ∷ os) zero m =
      (o ≡ m) × All (λ p. (eligible taker kind p && ahead_of taker.side p m) ≡ false) os
  Front (o ∷ os) (suc j) m =
      ((eligible taker kind o ≡ false) ⊎ (ahead_of taker.side m o ≡ true)) × Front os j m

  pub Front-get_elem? :
      (os : List Order) (j : ℕ) (m : Order) → Front os j m → get_elem? os j ≡ some m
  Front-get_elem? [] j m h = elim h [ ]
  Front-get_elem? (o ∷ os) zero m h = ap some h.0
  Front-get_elem? (o ∷ os) (suc j) m h = Front-get_elem? os j m h.1

  select-yields :
      (m : Order) (os : List Order)
      → All (λ p. (eligible taker kind p && ahead_of taker.side p m) ≡ false) os
      → All (λ p. ahead_of taker.side p m ≡ false) (select (eligible taker kind) os)
  select-yields m [] h = tt
  select-yields m (o ∷ os) h = elim (Bool-cases (eligible taker kind o)) [
    | inl e ↦ rw e (yields h.0 e, select-yields m os h.1)
    | inr e ↦ rw e (select-yields m os h.1)
  ]
    where
      yields :
          (eligible taker kind o && ahead_of taker.side o m) ≡ false
          → eligible taker kind o ≡ true
          → ahead_of taker.side o m ≡ false
      yields k e = ground arith

  -- The front maker comes first in the queue, and the others queue as they do without it.
  pub queue-Front :
      (os : List Order) (j : ℕ) (m : Order)
      → eligible taker kind m ≡ true
      → Front os j m
      → queue taker kind os ≡ m ∷ queue taker kind (remove_at os j)
  unfolding queue queue_of
  queue-Front [] j m el h = elim h [ ]
  queue-Front (o ∷ os) zero m el h =
      rw (h.0, el)
        (insert_by-first taker.side m (queue taker kind os) (
          queue_of-All (λ p. ahead_of taker.side p m ≡ false) taker.side
            (select (eligible taker kind) os) (select-yields m os h.1)))
  queue-Front (o ∷ os) (suc j) m el h = elim (Bool-cases (eligible taker kind o)) [
    | inr e ↦ rw e (queue-Front os j m el h.1)
    | inl e ↦ rw e (
        ap (insert_by taker.side o) (queue-Front os j m el h.1)
        ∙ insert_by-behind taker.side o m (queue taker kind (remove_at os j)) (before h.0 e))
  ]
    where
      before :
          (eligible taker kind o ≡ false) ⊎ (ahead_of taker.side m o ≡ true)
          → eligible taker kind o ≡ true
          → ahead_of taker.side m o ≡ true
      before k e = ground arith

  pub queue-nil :
      (os : List Order) → All (λ o. eligible taker kind o ≡ false) os → queue taker kind os ≡ []
  unfolding queue queue_of
  queue-nil [] h = refl
  queue-nil (o ∷ os) h = rw h.0 (queue-nil os h.1)
