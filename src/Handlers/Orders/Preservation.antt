-- ===== src/Handlers/Orders/Preservation.antt =====
-- The instructions on orders keep the account's book well-formed, and writing a well-formed book back
-- does not panic.
use fructus.Base.{
  ℕ, ◌-◌, ◌<◌, ◌≡◌, refl, subst, inl, inr, not, Option, arith, ◌==◌, length, All-map_le, Bool-cases,
  u64_size,
}
use fructus.Errors.{Result, ok, FructusError, ◌>>◌, >>=-eq-ok}
use fructus.Errors.Steps.{ok-injective, require-eq-ok}
use fructus.Constants.{max_orders_per_side}
use fructus.Exchange.{AccountInfo, ExchangeRate, read_stake_pool}
use fructus.State.{OrderBook}
use fructus.Orderbook.{Side, OrderKind, Order, MatchOutcome, Book, would_cross, mid}
use fructus.Orderbook.Engine.{match_order, post_limit, cancel, opposite}
use fructus.Orderbook.Engine.Orderly.{IsResting, IsOrderly, match_order-IsOrderly}
use fructus.Orderbook.Engine.Posting.{post_limit-IsOrderly}
use fructus.Orderbook.Engine.Quotes.{Cancelled, cancel-Cancelled}
use fructus.Adapter.Books.{side_from_u8, load_book, save_book, take_next_seq}
use fructus.Adapter.Books.RoundTrip.{IsSided, save_book_total, load_book-save_book}
use fructus.Adapter.Events.{append_event, emit_fill_events}
use fructus.Adapter.Observations.{record_observation}
use fructus.Adapter.Takers.{match_limit_taker}
use fructus.Adapter.Takers.Orderly.{take_next_seq-IsOrderly, match_limit_taker-IsOrderly}
use fructus.Handlers.Orders.{
  persist, place_limit, place_limit_order, place_market_order, cancel_event, cancel_order,
}

IsOrderly-IsSided : (book : Book) → IsOrderly book → IsSided book
IsOrderly-IsSided book v = record {
  bids_bid =
      All-map_le (IsResting Side.bid book.next_seq) book.bids (λ o r. r.sided) v.bid_side.resting;
  asks_ask =
      All-map_le (IsResting Side.ask book.next_seq) book.asks (λ o r. r.sided) v.ask_side.resting;
}

load_book-record_observation :
    (account : OrderBook) (m : Option ℕ) (slot : ℕ)
    → load_book (record_observation account m slot) ≡ load_book account
unfolding load_book record_observation
load_book-record_observation account m slot = refl

-- What `persist` writes is the book it was given.
pub persist-IsOrderly :
    (account : OrderBook) (book : Book) (slot : ℕ) {account' : OrderBook}
    → IsOrderly book
    → persist account book slot ≡ ok account'
    → IsOrderly (load_book account')
unfolding persist
persist-IsOrderly account book slot v e =
    let (saved, h, e1) = >>=-eq-ok (save_book account book) _ e in
    subst (λ x. IsOrderly (load_book x)) (ok-injective e1)
      (rw
        (
          load_book-record_observation saved (mid book) slot,
          load_book-save_book account book (IsOrderly-IsSided book v) h,
        )
        v)

-- Writing a well-formed book into an account with sixteen slots on each side does not panic.
pub persist_total :
    (account : OrderBook) (book : Book) (slot : ℕ)
    → length account.bids ≡ max_orders_per_side
    → length account.asks ≡ max_orders_per_side
    → IsOrderly book
    → (account' : OrderBook) × (persist account book slot ≡ ok account')
unfolding persist
persist_total account book slot h k v =
    let (saved, e) =
      save_book_total account book (omega (arith, h, v.bid_side.bounded))
        (omega (arith, k, v.ask_side.bounded)) in
    (record_observation saved (mid book) slot, rw e refl)

place_limit-IsOrderly :
    (account : OrderBook) (book : Book) (incoming : Order) (rate : ExchangeRate) (slot : ℕ)
    {account' : OrderBook}
    → 0 < incoming.size
    → incoming.seq < book.next_seq
    → IsOrderly book
    → place_limit account book incoming rate slot ≡ ok account'
    → IsOrderly (load_book account')
unfolding place_limit
place_limit-IsOrderly account book incoming rate slot {account'} sized older v =
    elim (Bool-cases (would_cross book incoming)) [
      | inl h ↦ rw (h, place_limit) crossing
      | inr h ↦
          rw (h, place_limit)
            (λ e.
              let (book', k, e1) = >>=-eq-ok (post_limit book incoming) _ e in
              persist-IsOrderly account book' slot
                (post_limit-IsOrderly book incoming sized older v k) e1)
    ]
  where
    matched : Result (Unit {0}) × OrderBook × Book
    matched = match_limit_taker account book incoming rate.total_lamports rate.pool_token_supply

    crossing :
        (matched.0 >> persist matched.1 matched.2 slot) ≡ ok account'
        → IsOrderly (load_book account')
    crossing e =
        let (x, h, e1) = >>=-eq-ok matched.0 _ e in
        persist-IsOrderly matched.1 matched.2 slot
          (match_limit_taker-IsOrderly account book incoming rate.total_lamports
            rate.pool_token_supply older v)
          e1

-- A `place_limit_order` that goes through leaves a well-formed book in the account: matched, deferred,
-- rested or cancelled, no side is over its slots, no order is empty or unpriced, every bid is below every
-- ask.
pub place_limit_order-IsOrderly :
    (account : OrderBook) (index_source : AccountInfo) (owner slot side price size : ℕ)
    {account' : OrderBook}
    → IsOrderly (load_book account)
    → place_limit_order account index_source owner slot side price size ≡ ok account'
    → IsOrderly (load_book account')
unfolding place_limit_order
place_limit_order-IsOrderly account index_source owner slot side price size v e =
    let (h1, e1) = require-eq-ok (not (price == 0)) FructusError.invalid_price _ e in
    let (h2, e2) = require-eq-ok (not (size == 0)) FructusError.invalid_size _ e1 in
    let (parsed, h3, e3) = >>=-eq-ok (side_from_u8 side) _ e2 in
    let (rate, h4, e4) = >>=-eq-ok (read_stake_pool index_source) _ e3 in
    let (taken, h5, e5) = >>=-eq-ok (take_next_seq (load_book account)) _ e4 in
    let (v1, older) = take_next_seq-IsOrderly (load_book account) v h5 in
    place_limit-IsOrderly account taken.0
      (record { owner = owner; side = parsed; price = price; size = size; seq = taken.1 }) rate slot
      (ground (arith, h2)) older v1 e5

-- A `place_market_order` that goes through leaves a well-formed book in the account.
pub place_market_order-IsOrderly :
    (account : OrderBook) (index_source : AccountInfo) (owner slot side size : ℕ)
    {account' : OrderBook}
    → IsOrderly (load_book account)
    → place_market_order account index_source owner slot side size ≡ ok account'
    → IsOrderly (load_book account')
unfolding place_market_order
place_market_order-IsOrderly account index_source owner slot side size v e =
    let (h2, e2) = require-eq-ok (not (size == 0)) FructusError.invalid_size _ e in
    let (parsed, h3, e3) = >>=-eq-ok (side_from_u8 side) _ e2 in
    let (rate, h4, e4) = >>=-eq-ok (read_stake_pool index_source) _ e3 in
    let (taken, h5, e5) = >>=-eq-ok (take_next_seq (load_book account)) _ e4 in
    let (v1, older) = take_next_seq-IsOrderly (load_book account) v h5 in
    let incoming : Order = record {
      owner = owner;
      side = parsed;
      price = 0;
      size = size;
      seq = taken.1;
    } in
    let matched : Book × MatchOutcome =
      match_order taken.0 incoming OrderKind.market (u64_size - 1) in
    let emitted : Result (Unit {0}) × OrderBook =
      emit_fill_events account matched.1.fills (opposite parsed) rate.total_lamports
        rate.pool_token_supply in
    let (x, h6, e6) = >>=-eq-ok emitted.0 _ e5 in
    persist-IsOrderly emitted.1 matched.0 slot
      (match_order-IsOrderly taken.0 incoming OrderKind.market (u64_size - 1) v1) e6

-- A `cancel_order` that goes through leaves a well-formed book in the account.
pub cancel_order-IsOrderly :
    (account : OrderBook) (owner slot seq : ℕ) {account' : OrderBook}
    → IsOrderly (load_book account)
    → cancel_order account owner slot seq ≡ ok account'
    → IsOrderly (load_book account')
unfolding cancel_order
cancel_order-IsOrderly account owner slot seq v e =
    let (removed, h, e1) = >>=-eq-ok (cancel (load_book account) owner seq) _ e in
    let c : Cancelled (load_book account) owner seq removed.0 removed.1 =
      cancel-Cancelled (load_book account) owner seq h in
    persist-IsOrderly (append_event account (cancel_event owner removed.1)).1 removed.0 slot
      (c.orderly v) e1
