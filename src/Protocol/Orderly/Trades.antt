-- ===== src/Protocol/Orderly/Trades.antt =====
-- The instructions on positions keep the book account.
use fructus.Base.{
  ℕ, ◌-◌, ◌≡◌, refl, sym, subst, not, Option, none, some, length-set, ◌==◌, u64_size,
}
use fructus.Errors.{Result, ok, FructusError, >>=-eq-ok}
use fructus.Errors.Steps.{ok-injective, require-eq-ok}
use fructus.Exchange.{AccountInfo, ExchangeRate, read_stake_pool}
use fructus.State.{OrderBook, OutEvent, PerpMarket, Position}
use fructus.Positions.{validate_open_args}
use fructus.Orderbook.{Side, OrderKind, Order, MatchOutcome, Book}
use fructus.Orderbook.Engine.{match_order, opposite}
use fructus.Orderbook.Engine.Orderly.{IsOrderly, match_order-IsOrderly}
use fructus.Adapter.Books.{side_from_u8, load_book, take_next_seq}
use fructus.Adapter.Events.{ring_index, emit_fill_events, settle_event}
use fructus.Adapter.Events.Writes.{marked}
use fructus.Adapter.Takers.{match_open_taker}
use fructus.Adapter.Takers.Orderly.{take_next_seq-IsOrderly, match_open_taker-IsOrderly}
use fructus.Adapter.Slots.{SameSlots, emit_fill_events-SameSlots, match_open_taker-SameSlots}
use fructus.Handlers.Runtime.{Runtime}
use fructus.Handlers.Orders.{persist}
use fructus.Handlers.Lifecycle.{
  Trading, settle_open_fills, open_position, live_position, settle_close_fills, finish_close,
  close_position, mark_settled, settle_pending, settle_fill,
}
use fructus.Handlers.Lifecycle.Once.{settle_pending-book}
use fructus.Handlers.Lifecycle.Preservation.{validate_open_args-size}
use fructus.Protocol.Orderly.Kept.{KeptFrom, SameSlots-KeptFrom, persist-KeptFrom}

pub open_position-KeptFrom :
    {origin : OrderBook} (market : PerpMarket) (market_key : ℕ) (t : Trading)
    (index_source : AccountInfo) (owner bump now_slot side size price : ℕ) {t' : Trading}
    → KeptFrom origin t.order_book
    → open_position market market_key t index_source owner bump now_slot side size price ≡ ok t'
    → KeptFrom origin t'.order_book
unfolding open_position
open_position-KeptFrom {origin} market market_key t index_source owner bump now_slot side size price
      k e =
    let (x, h1, e1) = >>=-eq-ok (validate_open_args side size) _ e in
    let (parsed, h2, e2) = >>=-eq-ok (side_from_u8 side) _ e1 in
    let (rate, h3, e3) = >>=-eq-ok (read_stake_pool index_source) _ e2 in
    let (taken, h4, e4) = >>=-eq-ok (take_next_seq (load_book t.order_book)) _ e3 in
    let (v1, older) = take_next_seq-IsOrderly (load_book t.order_book) k.orderly h4 in
    let incoming : Order = record {
      owner = owner;
      side = parsed;
      price = price;
      size = size;
      seq = taken.1;
    } in
    let (matched, h5, e5) =
      >>=-eq-ok
        (match_open_taker t.order_book taken.0 incoming rate.total_lamports rate.pool_token_supply)
        _ e4 in
    let (settled, h6, e6) =
      >>=-eq-ok
        (settle_open_fills market market_key owner parsed bump t.position t.user_collateral rate
          now_slot matched.2)
        _ e5 in
    let (saved, h7, e7) = >>=-eq-ok (persist matched.0 matched.1 now_slot) _ e6 in
    subst (λ x. KeptFrom origin x.order_book) (ok-injective e7)
      (persist-KeptFrom t.order_book matched.0 matched.1 now_slot
        (match_open_taker-SameSlots t.order_book taken.0 incoming rate.total_lamports
          rate.pool_token_supply h5)
        k
        (match_open_taker-IsOrderly t.order_book taken.0 incoming rate.total_lamports
          rate.pool_token_supply (validate_open_args-size side size h1) older v1 h5)
        h7)

finish_close-KeptFrom :
    {origin : OrderBook} (market : PerpMarket) (t : Trading) (position : Position) (parsed : Side)
    (rate : ExchangeRate) (now_slot : ℕ) (book : Book) (outcome : MatchOutcome) {t' : Trading}
    → KeptFrom origin t.order_book
    → IsOrderly book
    → finish_close market t position parsed rate now_slot (book, outcome) ≡ ok t'
    → KeptFrom origin t'.order_book
unfolding finish_close
finish_close-KeptFrom {origin} market t position parsed rate now_slot book outcome k v e =
    let emitted : Result (Unit {0}) × OrderBook =
      emit_fill_events t.order_book outcome.fills parsed rate.total_lamports
        rate.pool_token_supply in
    let (x, h6, e6) = >>=-eq-ok emitted.0 _ e in
    let (settled, h7, e7) =
      >>=-eq-ok (settle_close_fills market position t.user_collateral outcome.fills) _ e6 in
    let (saved, h8, e8) = >>=-eq-ok (persist emitted.1 book now_slot) _ e7 in
    subst (λ x. KeptFrom origin x.order_book) (ok-injective e8)
      (persist-KeptFrom t.order_book emitted.1 book now_slot
        (emit_fill_events-SameSlots t.order_book outcome.fills parsed rate.total_lamports
          rate.pool_token_supply)
        k v h8)

pub close_position-KeptFrom :
    {origin : OrderBook} (market : PerpMarket) (t : Trading) (index_source : AccountInfo)
    (owner now_slot side size : ℕ) {t' : Trading}
    → KeptFrom origin t.order_book
    → close_position market t index_source owner now_slot side size ≡ ok t'
    → KeptFrom origin t'.order_book
unfolding close_position
close_position-KeptFrom {origin} market t index_source owner now_slot side size k e =
    let (h1, e1) = require-eq-ok (not (size == 0)) FructusError.invalid_size _ e in
    let (parsed, h2, e2) = >>=-eq-ok (side_from_u8 side) _ e1 in
    let (rate, h3, e3) = >>=-eq-ok (read_stake_pool index_source) _ e2 in
    let (position, h4, e4) = >>=-eq-ok (live_position t.position size) _ e3 in
    let (taken, h5, e5) = >>=-eq-ok (take_next_seq (load_book t.order_book)) _ e4 in
    let (v1, older) = take_next_seq-IsOrderly (load_book t.order_book) k.orderly h5 in
    let incoming : Order = record {
      owner = owner;
      side = opposite parsed;
      price = 0;
      size = size;
      seq = taken.1;
    } in
    let (book, outcome) = match_order taken.0 incoming OrderKind.market (u64_size - 1) in
    finish_close-KeptFrom market t position parsed rate now_slot book outcome k
      (match_order-IsOrderly taken.0 incoming OrderKind.market (u64_size - 1) v1) e5

mark_settled-SameSlots :
    (a : OrderBook) (seq : ℕ) (event : OutEvent)
    → settle_event a seq ≡ ok (some event)
    → SameSlots a (mark_settled a seq event)
unfolding mark_settled
mark_settled-SameSlots a seq event h = record {
  same_bids = refl;
  same_asks = refl;
  same_next_seq = refl;
  same_ring = length-set a.events (ring_index seq) (record event { settled = 1 });
  written = (0, marked 0 a (mark_settled a seq event) seq event refl h refl refl);
}

pub settle_fill-KeptFrom :
    {origin : OrderBook} (rt : Runtime) (market : PerpMarket) (market_key : ℕ) (t : Trading)
    (position_key collateral_key now_slot seq : ℕ) {t' : Trading}
    → KeptFrom origin t.order_book
    → settle_fill rt market market_key t position_key collateral_key now_slot seq ≡ ok t'
    → KeptFrom origin t'.order_book
unfolding settle_fill
settle_fill-KeptFrom {origin} rt market market_key t position_key collateral_key now_slot seq {t'} k
      e =
    let (found, h, e1) = >>=-eq-ok (settle_event t.order_book seq) _ e in by_found found h e1
  where
    by_found :
        (found : Option OutEvent)
        → settle_event t.order_book seq ≡ ok found
        → elim found [
          | none ↦ ok t
          | some event ↦
              settle_pending rt market market_key t position_key collateral_key now_slot seq event
        ]
          ≡ ok t'
        → KeptFrom origin t'.order_book
    by_found none h e = subst (λ x. KeptFrom origin x.order_book) (ok-injective e) k
    by_found (some event) h e =
        subst (KeptFrom origin)
          (sym (
            settle_pending-book rt market market_key t position_key collateral_key now_slot seq
              event e))
          (SameSlots-KeptFrom t.order_book (mark_settled t.order_book seq event)
            (mark_settled-SameSlots t.order_book seq event h) k)
