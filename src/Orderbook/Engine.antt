-- ===== src/Orderbook/Engine.antt =====
-- programs/fructus/src/orderbook.rs: matching, posting and cancelling. The loop of `match_order` runs
-- on fuel; each round breaks, uses up the taker or removes a maker, so the number of makers and two
-- rounds more are enough (`Orderbook.Engine.Matching`).
pub mod Priority
pub mod Rounds
pub mod Matching
pub mod Surviving
pub mod Orderly
pub mod Posting
pub mod Quotes
pub mod Reference
use fructus.Base.{
  ℕ, zero, suc, ◌+◌, ◌-◌, Bool, true, false, ◌&&◌, ◌||◌, not, Option, none, some, List, [], ◌∷◌,
  ◌++◌, ltb, leb, ◌==◌, if◌then◌else◌, length, get_elem?, set, remove_at, min_of,
}
use fructus.Errors.{Result, ok, err, Error, FructusError, require, ◌>>◌}
use fructus.Constants.{max_orders_per_side}
use fructus.Orderbook.Defs.{
  Side, OrderKind, Order, Fill, MatchOutcome, Book, is_crossable, price_better, would_cross,
}

unfoldable pub opposite : Side → Side
opposite Side.bid = Side.ask
opposite Side.ask = Side.bid

-- The side of the book that a taker of the given side consumes.
unfoldable pub makers : Book → Side → List Order
makers book Side.bid = book.asks
makers book Side.ask = book.bids

unfoldable pub with_makers : Book → Side → List Order → Book
with_makers book Side.bid resting = record book { asks = resting }
with_makers book Side.ask resting = record book { bids = resting }

unfoldable pub crossable : OrderKind → Side → ℕ → ℕ → Bool
unfolding is_crossable
crossable OrderKind.market side taker_price maker_price = true
crossable OrderKind.limit Side.bid taker_price maker_price = is_crossable taker_price maker_price
crossable OrderKind.limit Side.ask taker_price maker_price = is_crossable maker_price taker_price

-- Not owned by the taker, and crossable.
unfoldable pub eligible : Order → OrderKind → Order → Bool
unfolding crossable
eligible taker kind maker =
    not (maker.owner == taker.owner) && crossable kind taker.side taker.price maker.price

-- The best maker so far: its index, price and sequence id.
abbrev pub Best : Type 0
Best = Option (ℕ × ℕ × ℕ)

unfoldable pub better : Side → Best → Order → Bool
unfolding price_better
better resting_side none maker = true
better resting_side (some (i, best_price, best_seq)) maker =
    price_better maker.price best_price resting_side
    || (maker.price == best_price && ltb maker.seq best_seq)

unfoldable pub consider : Order → OrderKind → Best → ℕ → Order → Best
unfolding eligible better opposite
consider taker kind best i maker =
    if eligible taker kind maker && better (opposite taker.side) best maker
    then some (i, maker.price, maker.seq)
    else best

unfoldable pub scan : Order → OrderKind → Best → ℕ → List Order → Best
unfolding consider
scan taker kind best i [] = best
scan taker kind best i (maker ∷ rest) =
    scan taker kind (consider taker kind best i maker) (i + 1) rest

abbrev pub index_of : Best → Option ℕ
index_of none = none
index_of (some (i, price, seq)) = some i

unfoldable pub best_crossable_maker : List Order → Order → OrderKind → Option ℕ
unfolding scan
best_crossable_maker resting taker kind = index_of (scan taker kind none 0 resting)

-- The variables of the loop in `match_order`; `resting` is the taker's opposite side.
pub record MatchState : Type 0 where
  pub resting : List Order
  pub remaining : ℕ
  pub fills : List Fill
  pub steps : ℕ
  pub budget_hit : Bool

pub data Round : Type 0 where
  stop go : MatchState → Round

-- The fill against a maker with the taker's remaining size.
abbrev pub new_fill : Order → ℕ → Order → Fill
new_fill incoming remaining maker = record {
  maker_seq = maker.seq;
  maker_owner = maker.owner;
  taker_owner = incoming.owner;
  size = min_of remaining maker.size;
  price = maker.price;
}

-- A fill against the maker at `idx`.
unfoldable pub fill_at : Order → MatchState → ℕ → Order → MatchState
fill_at incoming s idx maker =
    let fill_size = min_of s.remaining maker.size in
    record s {
      resting =
          if maker.size - fill_size == 0
          then remove_at s.resting idx
          else set s.resting idx (record maker { size = maker.size - fill_size });
      remaining = s.remaining - fill_size;
      fills = s.fills ++ new_fill incoming s.remaining maker ∷ [];
      steps = s.steps + 1;
    }

unfoldable pub fill_round : Order → MatchState → ℕ → Option Order → Round
unfolding fill_at
fill_round incoming s idx none = stop s
fill_round incoming s idx (some maker) = go (fill_at incoming s idx maker)

-- With a best maker found: out of budget, or a fill.
unfoldable pub maker_round : Order → ℕ → MatchState → Option ℕ → Round
unfolding fill_round
maker_round incoming max_steps s none = stop s
maker_round incoming max_steps s (some idx) =
    if leb max_steps s.steps
    then stop (record s { budget_hit = true })
    else fill_round incoming s idx (get_elem? s.resting idx)

unfoldable pub match_round : Order → OrderKind → ℕ → MatchState → Round
unfolding best_crossable_maker maker_round
match_round incoming kind max_steps s =
    if s.remaining == 0
    then stop s
    else maker_round incoming max_steps s (best_crossable_maker s.resting incoming kind)

unfoldable pub match_loop : Order → OrderKind → ℕ → ℕ → MatchState → MatchState
unfolding match_round
match_loop incoming kind max_steps zero s = s
match_loop incoming kind max_steps (suc fuel) s = elim (match_round incoming kind max_steps s) [
  | stop s' ↦ s'
  | go s' ↦ match_loop incoming kind max_steps fuel s'
]

unfoldable pub residual_of : Order → OrderKind → MatchState → Option Order
residual_of incoming OrderKind.market s = none
residual_of incoming OrderKind.limit s =
    if s.budget_hit then some (record incoming { size = s.remaining }) else none

abbrev pub match_start : Book → Order → MatchState
match_start book incoming = record {
  resting = makers book incoming.side;
  remaining = incoming.size;
  fills = [];
  steps = 0;
  budget_hit = false;
}

unfoldable pub match_end : Book → Order → OrderKind → ℕ → MatchState
unfolding match_loop makers
match_end book incoming kind max_steps =
    match_loop incoming kind max_steps (length (makers book incoming.side) + 2)
      (match_start book incoming)

unfoldable pub match_order : Book → Order → OrderKind → ℕ → Book × MatchOutcome
unfolding match_end with_makers residual_of
match_order book incoming kind max_steps =
    let s = match_end book incoming kind max_steps in
    (
      with_makers book incoming.side s.resting,
      record { fills = s.fills; residual = residual_of incoming kind s },
    )

unfoldable pub own_side : Book → Side → List Order
own_side book Side.bid = book.bids
own_side book Side.ask = book.asks

unfoldable pub push_order : Book → Order → Side → Book
push_order book order Side.bid = record book { bids = book.bids ++ order ∷ [] }
push_order book order Side.ask = record book { asks = book.asks ++ order ∷ [] }

unfoldable pub post_limit : Book → Order → Result Book
unfolding would_cross own_side push_order
post_limit book order = do
  require (not (order.price == 0)) FructusError.invalid_price
  require (not (would_cross book order)) FructusError.invalid_price
  require (ltb (length (own_side book order.side)) max_orders_per_side) FructusError.book_full
  ok (push_order book order order.side)

-- The first order with the sequence id, its index, as `position` and the indexing find it.
unfoldable pub find_seq : ℕ → ℕ → List Order → Option (ℕ × Order)
find_seq seq i [] = none
find_seq seq i (o ∷ os) = if o.seq == seq then some (i, o) else find_seq seq (i + 1) os

unfoldable pub cancel : Book → ℕ → ℕ → Result (Book × Order)
unfolding find_seq
cancel book owner seq = elim (find_seq seq 0 book.bids) [
  | some (pos, o) ↦
      require (o.owner == owner) FructusError.order_owner_mismatch
      >> ok (record book { bids = remove_at book.bids pos }, o)
  | none ↦ elim (find_seq seq 0 book.asks) [
    | some (pos, o) ↦
        require (o.owner == owner) FructusError.order_owner_mismatch
        >> ok (record book { asks = remove_at book.asks pos }, o)
    | none ↦ err (Error.custom FructusError.order_not_found)
  ]
]
