-- ===== src/Orderbook/Engine/Orderly.antt =====
-- programs/fructus/src/orderbook.rs: the well-formedness of a book, which `match_order`, `post_limit` and
-- `cancel` preserve, and what it means for the prices read off it.
use fructus.Base.{
  ℕ, ◌≤◌, ◌<◌, ◌≡◌, some, List, arith, length, get_elem?, set, remove_at, All, length-set,
  length-remove_at, get_elem?-lt, All-get_elem?, All-map_le, All-set, All-remove_at,
}
use fructus.Constants.{max_orders_per_side}
use fructus.Orderbook.Defs.{Side, OrderKind, Order, Book}
use fructus.Orderbook.Engine.{makers, own_side, match_order}
use fructus.Orderbook.Engine.Matching.{match_order_conserves}
use fructus.Orderbook.Engine.Surviving.{match_order-survives}

-- An order that rests on a side: priced, not empty, and older than the counter.
pub record IsResting (side : Side) (next_seq : ℕ) (o : Order) : Type 0 where
  pub sided : o.side ≡ side
  pub priced : 0 < o.price
  pub sized : 0 < o.size
  pub older : o.seq < next_seq

-- Every bid is below every ask.
abbrev pub Uncrossed : List Order → List Order → Type 0
Uncrossed bids asks = All (λ b. All (λ a. b.price < a.price) asks) bids

-- A side of the book is well-formed: its orders rest there, and it has no more than its slots.
pub record IsSide (side : Side) (next_seq : ℕ) (os : List Order) : Type 0 where
  pub resting : All (IsResting side next_seq) os
  pub bounded : length os ≤ max_orders_per_side

pub record IsOrderly (book : Book) : Type 0 where
  pub bid_side : IsSide Side.bid book.next_seq book.bids
  pub ask_side : IsSide Side.ask book.next_seq book.asks
  pub uncrossed : Uncrossed book.bids book.asks

pub IsSide-remove_at :
    (side : Side) (next_seq : ℕ) (os : List Order) (i : ℕ) (m : Order)
    → get_elem? os i ≡ some m
    → IsSide side next_seq os
    → IsSide side next_seq (remove_at os i)
IsSide-remove_at side next_seq os i m at s = record {
  resting = All-remove_at (IsResting side next_seq) os i s.resting;
  bounded = omega (arith, length-remove_at os i (get_elem?-lt os i at), s.bounded);
}

IsSide-set :
    (side : Side) (next_seq : ℕ) (os : List Order) (i : ℕ) (m : Order) (k : ℕ)
    → get_elem? os i ≡ some m
    → 0 < k
    → IsSide side next_seq os
    → IsSide side next_seq (set os i (record m { size = k }))
IsSide-set side next_seq os i m k at some_size s =
    let r : IsResting side next_seq m = All-get_elem? (IsResting side next_seq) os i s.resting at in
    record {
      resting =
          All-set (IsResting side next_seq) os i (record m { size = k })
            (record { sided = r.sided; priced = r.priced; sized = some_size; older = r.older })
            s.resting;
      bounded = omega (arith, length-set os i (record m { size = k }), s.bounded);
    }

-- The price of an order is what it was when it shrinks.
module _ {κ} (R : ℕ → Type κ) where
  prices-remove_at :
      (os : List Order) (i : ℕ) (m : Order)
      → get_elem? os i ≡ some m
      → All (λ o. R o.price) os
      → All (λ o. R o.price) (remove_at os i)
  prices-remove_at os i m at h = All-remove_at (λ o. R o.price) os i h

  prices-set :
      (os : List Order) (i : ℕ) (m : Order) (k : ℕ)
      → get_elem? os i ≡ some m
      → 0 < k
      → All (λ o. R o.price) os
      → All (λ o. R o.price) (set os i (record m { size = k }))
  prices-set os i m k at some_size h =
      All-set (λ o. R o.price) os i (record m { size = k })
        (All-get_elem? (λ o. R o.price) os i h at) h

match_order-IsSide :
    (book : Book) (incoming : Order) (kind : OrderKind) (max_steps : ℕ) (side : Side) (next_seq : ℕ)
    → IsSide side next_seq (makers book incoming.side)
    → IsSide side next_seq (makers (match_order book incoming kind max_steps).0 incoming.side)
match_order-IsSide book incoming kind max_steps side next_seq h =
    match_order-survives (IsSide side next_seq) (IsSide-remove_at side next_seq)
      (IsSide-set side next_seq) incoming kind max_steps book h

match_order-prices :
    (book : Book) (incoming : Order) (kind : OrderKind) (max_steps : ℕ) (R : ℕ → Type 0)
    → All (λ o. R o.price) (makers book incoming.side)
    → All (λ o. R o.price) (makers (match_order book incoming kind max_steps).0 incoming.side)
match_order-prices book incoming kind max_steps R h =
    match_order-survives (All (λ o. R o.price)) (prices-remove_at R) (prices-set R) incoming kind
      max_steps book h

-- What changes only the makers of a side, and those only in ways that keep every side and every bound on
-- prices, keeps the book well-formed.
IsOrderly-by_side :
    (b b' : Book) (side : Side)
    → IsOrderly b
    → b'.next_seq ≡ b.next_seq
    → own_side b' side ≡ own_side b side
    → ((s : Side) (n : ℕ) → IsSide s n (makers b side) → IsSide s n (makers b' side))
    → ((R : ℕ → Type 0)
        → All (λ o. R o.price) (makers b side)
        → All (λ o. R o.price) (makers b' side))
    → IsOrderly b'
unfolding makers own_side
IsOrderly-by_side b b' Side.bid v seq own sided priced = record {
  bid_side = rw (own, seq) v.bid_side;
  ask_side = rw seq (sided Side.ask b.next_seq v.ask_side);
  uncrossed = rw own (
      All-map_le (λ o. All (λ a. o.price < a.price) b.asks) b.bids (λ o. priced (λ p. o.price < p))
        v.uncrossed);
}
IsOrderly-by_side b b' Side.ask v seq own sided priced = record {
  bid_side = rw seq (sided Side.bid b.next_seq v.bid_side);
  ask_side = rw (own, seq) v.ask_side;
  uncrossed = rw own (priced (λ p. All (λ a. p < a.price) b.asks) v.uncrossed);
}

-- Matching any incoming order keeps the book well-formed: every resting order is on its side, priced, not
-- empty and older than the counter, no side has more orders than slots, and every bid is below every
-- ask.
pub match_order-IsOrderly :
    (book : Book) (incoming : Order) (kind : OrderKind) (max_steps : ℕ)
    → IsOrderly book
    → IsOrderly (match_order book incoming kind max_steps).0
match_order-IsOrderly book incoming kind max_steps v =
    let (taken, small, own, seq) = match_order_conserves book incoming kind max_steps in
    IsOrderly-by_side book (match_order book incoming kind max_steps).0 incoming.side v seq own
      (match_order-IsSide book incoming kind max_steps)
      (match_order-prices book incoming kind max_steps)
