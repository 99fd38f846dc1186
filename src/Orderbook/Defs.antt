-- ===== src/Orderbook/Defs.antt =====
-- programs/fructus/src/orderbook.rs: the types of the book, its best prices and the mid.
use fructus.Base.{
  ℕ, ◌+◌, ◌/◌, Bool, ◌&&◌, ◌||◌, not, Option, none, some, List, [], ◌∷◌, ltb, leb, ◌==◌,
  if◌then◌else◌, try_from, min_of, max_of, u64_size,
}

pub data Side : Type 0 where
  bid ask : Side

pub data OrderKind : Type 0 where
  limit market : OrderKind

pub record Order : Type 0 where
  pub owner : ℕ
  pub side : Side
  pub price : ℕ
  pub size : ℕ
  pub seq : ℕ

pub record Fill : Type 0 where
  pub maker_seq : ℕ
  pub maker_owner : ℕ
  pub taker_owner : ℕ
  pub size : ℕ
  pub price : ℕ

pub record MatchOutcome : Type 0 where
  pub fills : List Fill
  pub residual : Option Order

pub record Book : Type 0 where
  pub bids : List Order
  pub asks : List Order
  pub next_seq : ℕ

pub record Observation : Type 0 where
  pub slot : ℕ
  pub cumulative_mid : ℕ

unfoldable pub is_crossable : ℕ → ℕ → Bool
is_crossable bid_price ask_price = leb ask_price bid_price

unfoldable pub price_better : ℕ → ℕ → Side → Bool
price_better cand best Side.bid = ltb best cand
price_better cand best Side.ask = ltb cand best

-- `iter().map(|o| o.price).max()` and `min()`
abbrev pub max_price : List Order → Option ℕ
max_price [] = none
max_price (o ∷ os) = elim (max_price os) [ none ↦ some o.price | some m ↦ some (max_of o.price m) ]

abbrev pub min_price : List Order → Option ℕ
min_price [] = none
min_price (o ∷ os) = elim (min_price os) [ none ↦ some o.price | some m ↦ some (min_of o.price m) ]

abbrev pub or_zero : Option ℕ → ℕ
or_zero none = 0
or_zero (some n) = n

unfoldable pub best_bid : Book → ℕ
best_bid book = or_zero (max_price book.bids)

unfoldable pub best_ask : Book → ℕ
best_ask book = or_zero (min_price book.asks)

unfoldable pub crosses_at : Book → Side → ℕ → Bool
unfolding best_bid best_ask is_crossable
crosses_at book Side.bid price = not (best_ask book == 0) && is_crossable price (best_ask book)
crosses_at book Side.ask price = not (best_bid book == 0) && is_crossable (best_bid book) price

unfoldable pub would_cross : Book → Order → Bool
unfolding crosses_at
would_cross book order = crosses_at book order.side order.price

unfoldable pub mid : Book → Option ℕ
unfolding best_bid best_ask
mid book =
    if best_bid book == 0 || best_ask book == 0
    then none
    else try_from u64_size ((best_bid book + best_ask book) / 2)

-- `fills.iter().map(|f| f.size).sum()`
unfoldable pub total_size : List Fill → ℕ
total_size [] = 0
total_size (f ∷ fs) = f.size + total_size fs
