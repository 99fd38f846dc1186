-- ===== src/Adapter/Takers.antt =====
-- programs/fructus/src/lib.rs: a crossing taker matched against the book, its fills put on the ring and
-- its remainder deferred, rested or cancelled.
pub mod Orderly
use fructus.Base.{
  ℕ, ◌+◌, ◌-◌, Bool, true, false, ◌&&◌, Option, none, some, List, [], ◌∷◌, ltb, leb, ◌==◌,
  if◌then◌else◌, length, saturating_sub, u64_size,
}
use fructus.Errors.{Result, ok, err, Error, FructusError, ◌>>=◌}
use fructus.Constants.{max_match_steps, max_orders_per_side, event_kind_residual}
use fructus.State.{OrderBook, OutEvent}
use fructus.Orderbook.{Side, OrderKind, Order, Fill, MatchOutcome, Book, would_cross, total_size}
use fructus.Orderbook.Engine.{match_order, post_limit, opposite, own_side}
use fructus.Adapter.Books.{side_to_u8}
use fructus.Adapter.Events.{append_event, emit_fill_events}

-- The taker's order with the size that is left.
unfoldable pub remainder_of : Order → List Fill → Order
unfolding total_size
remainder_of incoming fills = record incoming {
  size = saturating_sub incoming.size (total_size fills);
}

unfoldable pub residual_event : Order → OutEvent
unfolding side_to_u8
residual_event residual = record {
  seq = 0;
  price = residual.price;
  size = residual.size;
  owner = residual.owner;
  counterparty = 0;
  entry_total_lamports = 0;
  entry_pool_token_supply = 0;
  settled = 0;
  kind = event_kind_residual;
  side = side_to_u8 residual.side;
}

-- With no budget-hit residual: the remainder rests, or is cancelled, or is a rejected self-trade.
unfoldable pub rest_remainder : Book → Order → ℕ → Result Book
rest_remainder book remainder total_filled =
    if would_cross book remainder
    then if total_filled == 0 then err (Error.custom FructusError.self_trade) else ok book
    else if leb max_orders_per_side (length (own_side book remainder.side))
    then ok book
    else post_limit book remainder

-- The book after a step that may fail: a failed one leaves it alone.
abbrev pub with_book : OrderBook → Book → Result Book → Result (Unit {0}) × OrderBook × Book
with_book account book (ok book') = (ok tt, account, book')
with_book account book (err e) = (err e, account, book)

abbrev pub deferred : Book → Bool × OrderBook → Result (Unit {0}) × OrderBook × Book
deferred book (true, account) = (ok tt, account, book)
deferred book (false, account) = (err (Error.custom FructusError.book_full), account, book)

unfoldable pub settle_remainder :
    OrderBook → Book → Order → MatchOutcome → Result (Unit {0}) × OrderBook × Book
unfolding total_size remainder_of residual_event rest_remainder
settle_remainder account book incoming outcome = elim outcome.residual [
  | some residual ↦ deferred book (append_event account (residual_event residual))
  | none ↦
      let remainder = remainder_of incoming outcome.fills in
      if ltb 0 remainder.size
      then with_book account book (rest_remainder book remainder (total_size outcome.fills))
      else (ok tt, account, book)
]

abbrev pub after_fills :
    Book
    → Order
    → MatchOutcome
    → Result (Unit {0}) × OrderBook
    → Result (Unit {0}) × OrderBook × Book
unfolding settle_remainder
after_fills book incoming outcome (ok _, account) = settle_remainder account book incoming outcome
after_fills book incoming outcome (err e, account) = (err e, account, book)

-- The account and the book come back after a failure too, as `drain_events` goes on with them.
unfoldable pub match_limit_taker :
    OrderBook → Book → Order → ℕ → ℕ → Result (Unit {0}) × OrderBook × Book
unfolding settle_remainder
match_limit_taker account book incoming n d =
    let (book', outcome) = match_order book incoming OrderKind.limit max_match_steps in
    after_fills book' incoming outcome
      (emit_fill_events account outcome.fills (opposite incoming.side) n d)

abbrev pub is_none_order : Option Order → Bool
is_none_order none = true
is_none_order (some o) = false

-- What `match_open_taker` does behind the match.
unfoldable pub finish_open :
    OrderBook → Book → Order → MatchOutcome → ℕ → ℕ → Result (OrderBook × Book × List Fill)
unfolding total_size remainder_of rest_remainder
finish_open account book incoming outcome n d =
    let (emitted, account') = emit_fill_events account outcome.fills (opposite incoming.side) n d in
    let remainder = remainder_of incoming outcome.fills in
    let rested = rest_remainder book remainder (total_size outcome.fills) in
    emitted >>= λ _.
    (if ltb 0 incoming.price && ltb 0 remainder.size && is_none_order outcome.residual
      then rested
      else ok book)
    >>= λ book'. ok (account', book', outcome.fills)

unfoldable pub match_open_taker :
    OrderBook → Book → Order → ℕ → ℕ → Result (OrderBook × Book × List Fill)
unfolding finish_open
match_open_taker account book incoming n d =
    if incoming.price == 0
    then (let (book', outcome) = match_order book incoming OrderKind.market (u64_size - 1) in
        finish_open account book' incoming outcome n d)
    else if would_cross book incoming
    then (let (book', outcome) = match_order book incoming OrderKind.limit max_match_steps in
        finish_open account book' incoming outcome n d)
    else (post_limit book incoming >>= λ book'. ok (account, book', []))
