-- ===== src/Handlers/Orders.antt =====
-- programs/fructus/src/lib.rs: `place_limit_order`, `place_market_order`, `cancel_order` and `crank`.
pub mod Preservation
use fructus.Base.{ℕ, ◌-◌, Bool, true, false, not, ◌==◌, if◌then◌else◌, u64_size}
use fructus.Errors.{Result, ok, err, FructusError, require, ◌>>=◌, ◌>>◌}
use fructus.Constants.{max_match_steps, event_kind_cancel}
use fructus.Exchange.{AccountInfo, ExchangeRate, read_stake_pool}
use fructus.State.{OrderBook, OutEvent}
use fructus.Orderbook.{Side, OrderKind, Order, Book, would_cross, mid}
use fructus.Orderbook.Engine.{match_order, post_limit, cancel, opposite}
use fructus.Adapter.Books.{side_to_u8, side_from_u8, load_book, save_book, take_next_seq}
use fructus.Adapter.Events.{append_event, emit_fill_events}
use fructus.Adapter.Observations.{record_observation}
use fructus.Adapter.Takers.{match_limit_taker}
use fructus.Adapter.Crank.{drain_events}

-- The book written back and an observation recorded, with which every change of the book ends.
unfoldable pub persist : OrderBook → Book → ℕ → Result OrderBook
persist account book now_slot = do
  saved ← save_book account book
  ok (record_observation saved (mid book) now_slot)

unfoldable pub place_limit : OrderBook → Book → Order → ExchangeRate → ℕ → Result OrderBook
unfolding persist
place_limit account book incoming rate now_slot =
    if would_cross book incoming
    then (let (result, account', book') =
          match_limit_taker account book incoming rate.total_lamports rate.pool_token_supply in
        result >> persist account' book' now_slot)
    else (post_limit book incoming >>= λ book'. persist account book' now_slot)

unfoldable pub place_limit_order : OrderBook → AccountInfo → ℕ → ℕ → ℕ → ℕ → ℕ → Result OrderBook
unfolding place_limit
place_limit_order account index_source owner now_slot side price size = do
  require (not (price == 0)) FructusError.invalid_price
  require (not (size == 0)) FructusError.invalid_size
  parsed ← side_from_u8 side
  rate ← read_stake_pool index_source
  taken ← take_next_seq (load_book account)
  place_limit account taken.0
      (record { owner = owner; side = parsed; price = price; size = size; seq = taken.1 }) rate
      now_slot

unfoldable pub place_market_order : OrderBook → AccountInfo → ℕ → ℕ → ℕ → ℕ → Result OrderBook
unfolding persist
place_market_order account index_source owner now_slot side size = do
  require (not (size == 0)) FructusError.invalid_size
  parsed ← side_from_u8 side
  rate ← read_stake_pool index_source
  taken ← take_next_seq (load_book account)
  let incoming : Order = record {
    owner = owner;
    side = parsed;
    price = 0;
    size = size;
    seq = taken.1;
  }
  let matched = match_order taken.0 incoming OrderKind.market (u64_size - 1)
  let emitted =
      emit_fill_events account matched.1.fills (opposite parsed) rate.total_lamports
        rate.pool_token_supply
  emitted.0
  persist emitted.1 matched.0 now_slot

unfoldable pub cancel_event : ℕ → Order → OutEvent
cancel_event owner removed = record {
  seq = 0;
  price = removed.price;
  size = removed.size;
  owner = owner;
  counterparty = 0;
  entry_total_lamports = 0;
  entry_pool_token_supply = 0;
  settled = 0;
  kind = event_kind_cancel;
  side = side_to_u8 removed.side;
}

-- The event is dropped where the ring is full.
unfoldable pub cancel_order : OrderBook → ℕ → ℕ → ℕ → Result OrderBook
unfolding cancel_event persist
cancel_order account owner now_slot seq = do
  removed ← cancel (load_book account) owner seq
  persist (append_event account (cancel_event owner removed.1)).1 removed.0 now_slot

unfoldable pub crank : OrderBook → AccountInfo → ℕ → Result OrderBook
unfolding persist
crank account index_source now_slot = read_stake_pool index_source >>= λ rate.
    drain_events account (load_book account) rate.total_lamports rate.pool_token_supply >>= λ s.
    if s.2 then persist s.0 s.1 now_slot else ok s.0
