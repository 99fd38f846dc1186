-- ===== src/Orderbook/Engine/Matching.antt =====
-- programs/fructus/src/orderbook.rs: `match_order` conserves sizes, fills only eligible makers within its
-- budget, and runs until one of its own exits.
use fructus.Base.{
  ℕ, ◌+◌, ◌-◌, ◌≤◌, ◌<◌, ◌≡◌, refl, ap, ◌⊎◌, inl, inr, true, false, Option, none, some, List, arith,
  length, get_elem?, All,
}
use fructus.Orderbook.Defs.{Side, OrderKind, Order, Fill, Book, total_size}
use fructus.Orderbook.Engine.{
  makers, with_makers, eligible, MatchState, match_start, match_end, own_side, match_order,
  residual_of,
}
use fructus.Orderbook.Engine.Rounds.{resting_size, IsProper, Balanced, Exit, match_loop-Exit}

pub makers-with_makers :
    (book : Book) (side : Side) (l : List Order) → makers (with_makers book side l) side ≡ l
unfolding makers with_makers
makers-with_makers book Side.bid l = refl
makers-with_makers book Side.ask l = refl

pub own_side-with_makers :
    (book : Book) (side : Side) (l : List Order)
    → own_side (with_makers book side l) side ≡ own_side book side
unfolding own_side with_makers
own_side-with_makers book Side.bid l = refl
own_side-with_makers book Side.ask l = refl

pub next_seq-with_makers :
    (book : Book) (side : Side) (l : List Order)
    → (with_makers book side l).next_seq ≡ book.next_seq
unfolding with_makers
next_seq-with_makers book Side.bid l = refl
next_seq-with_makers book Side.ask l = refl

-- What `match_order` leaves behind, for an incoming order on a book: sizes are conserved, the taker is
-- never over-filled, every fill is proper, there are at most `max_steps`, and the loop has ended by one
-- of its exits and not for want of fuel.
module _ (book : Book) (incoming : Order) (kind : OrderKind) (max_steps : ℕ) where
  start-Balanced :
      Balanced incoming kind max_steps (makers book incoming.side) (match_start book incoming)
  unfolding total_size
  start-Balanced = record {
    taken = omega arith;
    left = omega arith;
    counted = refl;
    within = omega arith;
    spent = ground arith;
    proper = tt;
  }

  match_end-Exit :
      Balanced incoming kind max_steps
        (makers book incoming.side)
        (match_end book incoming kind max_steps)
      × Exit incoming kind max_steps (match_end book incoming kind max_steps)
  unfolding match_end
  match_end-Exit =
      match_loop-Exit incoming kind max_steps (makers book incoming.side)
        (length (makers book incoming.side) + 2) (match_start book incoming) (ground arith) refl
        start-Balanced

  -- Sizes are conserved: what rested on the makers' side rests there still or was filled, and the fills
  -- take no more than the order's size. The order's own side and the sequence counter are untouched.
  pub match_order_conserves :
      let (book', outcome) = match_order book incoming kind max_steps in
      (resting_size (makers book' incoming.side) + total_size outcome.fills
        ≡ resting_size (makers book incoming.side))
      × (total_size outcome.fills ≤ incoming.size)
      × (own_side book' incoming.side ≡ own_side book incoming.side)
      × (book'.next_seq ≡ book.next_seq)
  unfolding match_order
  match_order_conserves = (
    rw (makers-with_makers book incoming.side) match_end-Exit.0.taken,
    omega (arith, match_end-Exit.0.left),
    own_side-with_makers book incoming.side _,
    next_seq-with_makers book incoming.side _,
  )

  -- Every fill is against another owner's order, at a price that the incoming order allows, of no more
  -- than its size, and names its owner as the taker; there are at most `max_steps`.
  pub match_order-IsProper :
      All (IsProper incoming kind max_steps) (match_order book incoming kind max_steps).1.fills
      × (length (match_order book incoming kind max_steps).1.fills ≤ max_steps)
  unfolding match_order
  match_order-IsProper =
      (match_end-Exit.0.proper, omega (arith, match_end-Exit.0.counted, match_end-Exit.0.within))

-- What the outcome of a limit order says of the book it left.
abbrev pub Settles : Order → ℕ → List Order → List Fill → Option Order → Type 0
Settles incoming max_steps makers_left fills none =
    (total_size fills ≡ incoming.size)
    ⊎ All (λ o. eligible incoming OrderKind.limit o ≡ false) makers_left
Settles incoming max_steps makers_left fills (some residual) =
    (residual ≡ record incoming { size = incoming.size - total_size fills })
    × (0 < residual.size)
    × (length fills ≡ max_steps)
    × ((j : ℕ) × (m : Order) × (get_elem? makers_left j ≡ some m)
        × (eligible incoming OrderKind.limit m ≡ true))

-- Matching a limit order comes to its own end. With no residual the order is filled, or no maker that it
-- crosses and does not own is left. A residual is exactly the unfilled rest, is reported only after
-- `max_steps` fills, and leaves such a maker in the book.
pub match_order-Settles :
    (book : Book) (incoming : Order) (max_steps : ℕ)
    → let (book', outcome) = match_order book incoming OrderKind.limit max_steps in
      Settles incoming max_steps (makers book' incoming.side) outcome.fills outcome.residual
unfolding match_order residual_of
match_order-Settles book incoming max_steps = rw (makers-with_makers book incoming.side) (
    settled (match_end book incoming OrderKind.limit max_steps)
      (match_end-Exit book incoming OrderKind.limit max_steps))
  where
    settled :
        (s : MatchState)
        → Balanced incoming OrderKind.limit max_steps (makers book incoming.side) s
          × Exit incoming OrderKind.limit max_steps s
        → Settles incoming max_steps s.resting s.fills (residual_of incoming OrderKind.limit s)
    settled s (b, inl (h, inl done)) = rw h (inl (omega (arith, b.left)))
    settled s (b, inl (h, inr dry)) = rw h (inr dry)
    settled s (b, inr (h, more, full, maker)) = rw h (
      ap (λ n. record incoming { size = n }) (omega (arith, b.left)),
      more,
      omega (arith, b.counted, b.within),
      maker,
    )
