-- ===== src/Orderbook/Engine/Priority.antt =====
-- programs/fructus/src/orderbook.rs: `best_crossable_maker` finds the first maker in price-time order.
use fructus.Base.{
  ℕ, ◌+◌, ◌≤◌, ◌<◌, ◌≡◌, ◌⊎◌, refl, sym, inl, inr, true, false, ◌&&◌, Option, none, some, List, [],
  ◌∷◌, ◌++◌, arith, length, get_elem?, All, Bool-cases, length-append, get_elem?-append_left,
  get_elem?-append_mid, All-append, All-map_le,
}
use mathlib.Core.Path.{subst}
use mathlib.Core.List.{append-nil, append_assoc}
use fructus.Orderbook.Defs.{Side, OrderKind, Order, price_better}
use fructus.Orderbook.Engine.{
  Best, opposite, eligible, better, consider, scan, index_of, best_crossable_maker,
}

-- A maker at least as good for a taker of the given side as another: a lower ask for a buyer and a higher
-- bid for a seller, and at the same price one that came no later.
abbrev pub Ahead : Side → Order → Order → Type 0
Ahead Side.bid m o = (m.price < o.price) ⊎ ((m.price ≡ o.price) × (m.seq ≤ o.seq))
Ahead Side.ask m o = (o.price < m.price) ⊎ ((m.price ≡ o.price) × (m.seq ≤ o.seq))

module _ (taker : Order) (kind : OrderKind) where
  -- Not an eligible maker that comes before the price and sequence id.
  abbrev pub Yields : ℕ → ℕ → Order → Type 0
  Yields p q o = (eligible taker kind o && better (opposite taker.side) (some (0, p, q)) o) ≡ false

  -- What the scan has found in the makers so far.
  abbrev pub Chosen : List Order → Best → Type 0
  Chosen ms none = All (λ o. eligible taker kind o ≡ false) ms
  Chosen ms (some (j, p, q)) =
      (m : Order) × (get_elem? ms j ≡ some m)
      × (eligible taker kind m ≡ true)
      × (m.price ≡ p)
      × (m.seq ≡ q)
      × All (Yields p q) ms

  ineligible-Yields : (p q : ℕ) (o : Order) → eligible taker kind o ≡ false → Yields p q o
  ineligible-Yields p q o h = rw h

  self-Yields : (m : Order) → Yields m.price m.seq m
  unfolding better price_better
  self-Yields m = go (opposite taker.side)
    where
      go : (s : Side) → (eligible taker kind m && better s (some (0, m.price, m.seq)) m) ≡ false
      go Side.bid = ground arith
      go Side.ask = ground arith

  -- A maker that comes before the best one also comes before all to which that one yields nothing.
  Yields-trans :
      (j p q : ℕ) (m o : Order)
      → better (opposite taker.side) (some (j, p, q)) m ≡ true
      → Yields p q o
      → Yields m.price m.seq o
  unfolding better price_better
  Yields-trans j p q m o = go (opposite taker.side)
    where
      go :
          (s : Side)
          → better s (some (j, p, q)) m ≡ true
          → (eligible taker kind o && better s (some (0, p, q)) o) ≡ false
          → (eligible taker kind o && better s (some (0, m.price, m.seq)) o) ≡ false
      go Side.bid h k = ground arith
      go Side.ask h k = ground arith

  keep :
      (ms : List Order) (m : Order) (best : Best)
      → (eligible taker kind m && better (opposite taker.side) best m) ≡ false
      → Chosen ms best
      → Chosen (ms ++ m ∷ []) best
  unfolding better
  keep ms m none h c = All-append _ ms (m ∷ []) c (ground arith, tt)
  keep ms m (some (j, p, q)) h (o, at, el, ep, eq, all) = (
    o,
    get_elem?-append_left ms (m ∷ []) j at,
    el,
    ep,
    eq,
    All-append (Yields p q) ms (m ∷ []) all (h, tt),
  )

  Yields-to :
      (ms : List Order) (m : Order) (best : Best)
      → better (opposite taker.side) best m ≡ true
      → Chosen ms best
      → All (Yields m.price m.seq) ms
  Yields-to ms m none h c = All-map_le _ ms (ineligible-Yields m.price m.seq) c
  Yields-to ms m (some (j, p, q)) h (o, at, el, ep, eq, all) =
      All-map_le (Yields p q) ms (λ x. Yields-trans j p q m x h) all

  consider-Chosen :
      (ms : List Order) (m : Order) (best : Best)
      → Chosen ms best
      → Chosen (ms ++ m ∷ []) (consider taker kind best (length ms) m)
  unfolding consider
  consider-Chosen ms m best c =
      elim (Bool-cases (eligible taker kind m && better (opposite taker.side) best m)) [
        | inl h ↦ rw h (
          m,
          get_elem?-append_mid ms [] m,
          both.0 h,
          refl,
          refl,
          All-append (Yields m.price m.seq) ms (m ∷ []) (Yields-to ms m best (both.1 h) c)
              (self-Yields m, tt),
        )
        | inr h ↦ rw h (keep ms m best h c)
      ]
    where
      both :
          ((eligible taker kind m && better (opposite taker.side) best m) ≡ true
            → eligible taker kind m ≡ true)
          × ((eligible taker kind m && better (opposite taker.side) best m) ≡ true
              → better (opposite taker.side) best m ≡ true)
      both = (λ h. ground arith, λ h. ground arith)

  scan-Chosen :
      (ms rest : List Order) (best : Best)
      → Chosen ms best
      → Chosen (ms ++ rest) (scan taker kind best (length ms) rest)
  unfolding scan
  scan-Chosen ms [] best c = subst (λ l. Chosen l best) (sym (append-nil ms)) c
  scan-Chosen ms (m ∷ rest) best c =
      subst
        (λ l.
          Chosen l (scan taker kind (consider taker kind best (length ms) m) (length ms + 1) rest))
        (append_assoc ms (m ∷ []) rest)
        (subst
          (λ i.
            Chosen ((ms ++ m ∷ []) ++ rest)
              (scan taker kind (consider taker kind best (length ms) m) i rest))
          (length-append ms (m ∷ []))
          (scan-Chosen (ms ++ m ∷ []) rest (consider taker kind best (length ms) m)
            (consider-Chosen ms m best c)))

  Yields-Ahead :
      (m o : Order) → Yields m.price m.seq o → eligible taker kind o ≡ true → Ahead taker.side m o
  unfolding better price_better opposite
  Yields-Ahead m o = go taker.side
    where
      go :
          (s : Side)
          → (eligible taker kind o && better (opposite s) (some (0, m.price, m.seq)) o) ≡ false
          → eligible taker kind o ≡ true
          → Ahead s m o
      go Side.bid h k = grind arith
      go Side.ask h k = grind arith

  -- What `best_crossable_maker` answers: nothing where no maker is eligible, and else the index of an
  -- eligible maker that is ahead of every eligible maker.
  abbrev pub First : List Order → Option ℕ → Type 0
  First ms none = All (λ o. eligible taker kind o ≡ false) ms
  First ms (some j) =
      (m : Order) × (get_elem? ms j ≡ some m)
      × (eligible taker kind m ≡ true)
      × All (λ o. eligible taker kind o ≡ true → Ahead taker.side m o) ms

  Chosen-First : (ms : List Order) (best : Best) → Chosen ms best → First ms (index_of best)
  Chosen-First ms none c = c
  Chosen-First ms (some (j, p, q)) (m, at, el, ep, eq, all) =
      (m, at, el, All-map_le (Yields m.price m.seq) ms (Yields-Ahead m) (rw (ep, eq) all))

  -- Price-time priority. The engine reports no maker exactly where none is eligible (owned by another
  -- and crossable); otherwise it picks an eligible maker such that every eligible maker has a worse price
  -- for the taker, or the same price and at least its sequence id.
  pub best_crossable_maker-First :
      (resting : List Order) → First resting (best_crossable_maker resting taker kind)
  unfolding best_crossable_maker
  best_crossable_maker-First resting =
      Chosen-First resting (scan taker kind none 0 resting) (scan-Chosen [] resting none tt)
