-- ===== src/Tests/Engine.antt =====
-- The matching engine at a concrete book.
use fructus.Base.{ℕ, ◌+◌, ◌≤◌, ◌≡◌, refl, some, [], ◌∷◌}
use fructus.Orderbook.{Side, OrderKind, Order, Fill, Book, total_size}
use fructus.Orderbook.Engine.{makers, own_side, best_crossable_maker, match_order}
use fructus.Orderbook.Engine.Rounds.{resting_size}
use fructus.Orderbook.Engine.Reference.{queue, walk}
use fructus.Orderbook.Engine.Reference.Refinement.{match_order-walk}
use fructus.Orderbook.Engine.Matching.{Settles, match_order_conserves, match_order-Settles}

abbrev ask_of : ℕ → ℕ → ℕ → ℕ → Order
ask_of owner price size seq = record {
  owner = owner;
  side = Side.ask;
  price = price;
  size = size;
  seq = seq;
}

-- Two asks at the best price; the one with the lower sequence id stands behind the other. The cheapest
-- one is the taker's own.
abbrev book : Book
book = record {
  bids = [];
  asks = ask_of 2 100 5 7 ∷ ask_of 3 100 4 3 ∷ ask_of 1 90 9 1 ∷ ask_of 2 120 8 9 ∷ [];
  next_seq = 10;
}

abbrev taker : Order
taker = record { owner = 1; side = Side.bid; price = 110; size = 6; seq = 10 }

first_in_time : best_crossable_maker book.asks taker OrderKind.limit ≡ some 1
unfolding best_crossable_maker
first_in_time = refl

abbrev fill_of : ℕ → ℕ → ℕ → Fill
fill_of seq owner size = record {
  maker_seq = seq;
  maker_owner = owner;
  taker_owner = 1;
  size = size;
  price = 100;
}

-- The order takes 4 of the older ask and 2 of the younger.
fills_in_order :
    (match_order book taker OrderKind.limit 8).1.fills ≡ fill_of 3 3 4 ∷ fill_of 7 2 2 ∷ []
unfolding match_order
fills_in_order = refl

match_order_conserves_example :
    let (book', outcome) = match_order book taker OrderKind.limit 8 in
    (resting_size (makers book' taker.side) + total_size outcome.fills
      ≡ resting_size (makers book taker.side))
    × (total_size outcome.fills ≤ taker.size)
    × (own_side book' taker.side ≡ own_side book taker.side)
    × (book'.next_seq ≡ book.next_seq)
match_order_conserves_example = match_order_conserves book taker OrderKind.limit 8

match_order-Settles_example :
    let (book', outcome) = match_order book taker OrderKind.limit 1 in
    Settles taker 1 (makers book' taker.side) outcome.fills outcome.residual
match_order-Settles_example = match_order-Settles book taker 1

match_order-walk_example :
    (match_order book taker OrderKind.limit 8).1.fills
    ≡ walk taker 8 taker.size (queue taker OrderKind.limit (makers book taker.side))
match_order-walk_example = match_order-walk book taker OrderKind.limit 8
