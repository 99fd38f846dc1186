-- ===== src/Orderbook/Engine/Reference/Choice.antt =====
-- `best_crossable_maker` picks the maker in front of the queue.
use fructus.Base.{
  ℕ, suc, ◌+◌, ◌≡◌, refl, ap, ◌∙◌, ◌⊎◌, inl, inr, true, false, ◌&&◌, Option, none, some, List, [],
  ◌∷◌, arith, All, Bool-cases,
}
use mathlib.Core.Path.{subst}
use fructus.Orderbook.Defs.{Side, OrderKind, Order, price_better}
use fructus.Orderbook.Engine.{
  Best, opposite, eligible, better, consider, scan, index_of, best_crossable_maker,
}
use fructus.Orderbook.Engine.Reference.{ahead_of}
use fructus.Orderbook.Engine.Reference.Queue.{Front}

better_lem :
    (side : Side) (j : ℕ) (b o : Order)
    → better (opposite side) (some (j, b.price, b.seq)) o ≡ ahead_of side o b
unfolding better price_better opposite
better_lem Side.bid j b o = refl
better_lem Side.ask j b o = refl

ahead_of_trans :
    (side : Side) (a b c : Order)
    → ahead_of side a b ≡ true
    → ahead_of side b c ≡ true
    → ahead_of side a c ≡ true
ahead_of_trans Side.bid a b c h k = ground arith
ahead_of_trans Side.ask a b c h k = ground arith

-- What is ahead of the best so far is ahead of what is not.
ahead_of_weak :
    (side : Side) (a b c : Order)
    → ahead_of side a b ≡ true
    → ahead_of side c b ≡ false
    → ahead_of side a c ≡ true
ahead_of_weak Side.bid a b c h k = ground arith
ahead_of_weak Side.ask a b c h k = ground arith

module _ (taker : Order) (kind : OrderKind) where
  -- The scan of the makers `os` from the index `i` on, with the best `b` before them.
  abbrev Passed : ℕ → Order → ℕ → List Order → Best → Type 0
  Passed j b i os r =
      ((r ≡ some (j, b.price, b.seq))
        × All (λ p. (eligible taker kind p && ahead_of taker.side p b) ≡ false) os)
      ⊎ ((k : ℕ) × (m : Order) × (r ≡ some (i + k, m.price, m.seq))
          × (eligible taker kind m ≡ true)
          × (ahead_of taker.side m b ≡ true)
          × Front taker kind os k m)

  consider-ahead :
      (j i : ℕ) (b o : Order)
      → (eligible taker kind o && ahead_of taker.side o b) ≡ true
      → consider taker kind (some (j, b.price, b.seq)) i o ≡ some (i, o.price, o.seq)
  unfolding consider
  consider-ahead j i b o h = rw (better_lem taker.side j b o, h) refl

  consider-behind :
      (j i : ℕ) (b o : Order)
      → (eligible taker kind o && ahead_of taker.side o b) ≡ false
      → consider taker kind (some (j, b.price, b.seq)) i o ≡ some (j, b.price, b.seq)
  unfolding consider
  consider-behind j i b o h = rw (better_lem taker.side j b o, h) refl

  -- The new best, with what the rest of the scan makes of it.
  Passed-ahead :
      (j i : ℕ) (b o : Order) (os : List Order) (r : Best)
      → (eligible taker kind o && ahead_of taker.side o b) ≡ true
      → Passed i o (i + 1) os r
      → Passed j b i (o ∷ os) r
  Passed-ahead j i b o os r h (inl (e, all)) = inr (
    0,
    o,
    e ∙ ap (λ x. some (x, o.price, o.seq)) (omega arith),
    ground arith,
    ground arith,
    (refl, all),
  )
  Passed-ahead j i b o os r h (inr (k, m, e, el, ah, front)) = inr (
    suc k,
    m,
    e ∙ ap (λ x. some (x, m.price, m.seq)) (omega arith),
    el,
    ahead_of_trans taker.side m o b ah (ground arith),
    (inr ah, front),
  )

  Passed-behind :
      (j i : ℕ) (b o : Order) (os : List Order) (r : Best)
      → (eligible taker kind o && ahead_of taker.side o b) ≡ false
      → Passed j b (i + 1) os r
      → Passed j b i (o ∷ os) r
  Passed-behind j i b o os r h (inl (e, all)) = inl (e, (h, all))
  Passed-behind j i b o os r h (inr (k, m, e, el, ah, front)) =
      inr (suc k, m, e ∙ ap (λ x. some (x, m.price, m.seq)) (omega arith), el, ah, (passed, front))
    where
      passed : (eligible taker kind o ≡ false) ⊎ (ahead_of taker.side m o ≡ true)
      passed = elim (Bool-cases (eligible taker kind o)) [
        | inl p ↦ inr (ahead_of_weak taker.side m b o ah (ground arith))
        | inr p ↦ inl p
      ]

  scan-Passed :
      (j : ℕ) (b : Order) (i : ℕ) (os : List Order)
      → Passed j b i os (scan taker kind (some (j, b.price, b.seq)) i os)
  unfolding scan
  scan-Passed j b i [] = inl (refl, tt)
  scan-Passed j b i (o ∷ os) =
      elim (Bool-cases (eligible taker kind o && ahead_of taker.side o b)) [
        | inl h ↦
            rw (scan, consider-ahead j i b o h)
              (Passed-ahead j i b o os (scan taker kind (some (i, o.price, o.seq)) (i + 1) os) h
                (scan-Passed i o (i + 1) os))
        | inr h ↦
            rw (scan, consider-behind j i b o h)
              (Passed-behind j i b o os (scan taker kind (some (j, b.price, b.seq)) (i + 1) os) h
                (scan-Passed j b (i + 1) os))
      ]

  -- No maker is eligible, or the one at the index is, and is in front.
  abbrev pub Found : List Order → Option ℕ → Type 0
  Found os none = All (λ o. eligible taker kind o ≡ false) os
  Found os (some j) = (m : Order) × (eligible taker kind m ≡ true) × Front taker kind os j m

  -- The same of a scan of `os` that starts at the index `i` with nothing found.
  abbrev Started : ℕ → List Order → Best → Type 0
  Started i os none = All (λ o. eligible taker kind o ≡ false) os
  Started i os (some (j, p, q)) =
      (k : ℕ) × (m : Order) × (j ≡ i + k) × (eligible taker kind m ≡ true) × Front taker kind os k m

  consider-eligible :
      (i : ℕ) (o : Order)
      → eligible taker kind o ≡ true
      → consider taker kind none i o ≡ some (i, o.price, o.seq)
  unfolding consider better
  consider-eligible i o h = rw h refl

  consider-ineligible :
      (i : ℕ) (o : Order) → eligible taker kind o ≡ false → consider taker kind none i o ≡ none
  unfolding consider better
  consider-ineligible i o h = rw h refl

  Started-ahead :
      (i : ℕ) (o : Order) (os : List Order) (r : Best)
      → eligible taker kind o ≡ true
      → Passed i o (i + 1) os r
      → Started i (o ∷ os) r
  Started-ahead i o os none h (inl (e, all)) = cc
  Started-ahead i o os none h (inr (k, m, e, el, ah, front)) = cc
  Started-ahead i o os (some (j, p, q)) h (inl (e, all)) = (0, o, ground (arith, e), h, (refl, all))
  Started-ahead i o os (some (j, p, q)) h (inr (k, m, e, el, ah, front)) =
      (suc k, m, ground (arith, e), el, (inr ah, front))

  Started-later :
      (i : ℕ) (o : Order) (os : List Order) (r : Best)
      → eligible taker kind o ≡ false
      → Started (i + 1) os r
      → Started i (o ∷ os) r
  Started-later i o os none h all = (h, all)
  Started-later i o os (some (j, p, q)) h (k, m, e, el, front) =
      (suc k, m, omega (arith, e), el, (inl h, front))

  scan-Started : (i : ℕ) (os : List Order) → Started i os (scan taker kind none i os)
  unfolding scan
  scan-Started i [] = tt
  scan-Started i (o ∷ os) = elim (Bool-cases (eligible taker kind o)) [
    | inl h ↦
        rw (scan, consider-eligible i o h)
          (Started-ahead i o os (scan taker kind (some (i, o.price, o.seq)) (i + 1) os) h
            (scan-Passed i o (i + 1) os))
    | inr h ↦
        rw (scan, consider-ineligible i o h)
          (Started-later i o os (scan taker kind none (i + 1) os) h (scan-Started (i + 1) os))
  ]

  Started-Found : (os : List Order) (r : Best) → Started 0 os r → Found os (index_of r)
  Started-Found os none all = all
  Started-Found os (some (j, p, q)) (k, m, e, el, front) =
      (m, el, subst (λ x. Front taker kind os x m) (omega (arith, e)) front)

  pub best_crossable_maker-Found : (os : List Order) → Found os (best_crossable_maker os taker kind)
  unfolding best_crossable_maker
  best_crossable_maker-Found os = Started-Found os (scan taker kind none 0 os) (scan-Started 0 os)
