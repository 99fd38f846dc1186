-- ===== src/Tests/Orders.antt =====
-- The instructions on orders at a concrete account.
use fructus.Base.{◌≤◌, ◌<◌, ◌≡◌, refl, ◌⊎◌, true, false, some, [], ◌∷◌, arith, replicate, All}
use fructus.Errors.{ok}
use fructus.Constants.{event_queue_len}
use fructus.State.{OrderBook, empty_event}
use fructus.Orderbook.{Side, Order, Fill, Book, mid}
use fructus.Orderbook.Engine.{cancel}
use fructus.Orderbook.Engine.Orderly.{IsOrderly}
use fructus.Orderbook.Engine.Quotes.{Cancelled, cancel-Cancelled, mid_between}
use fructus.Adapter.Books.{load_book, save_book}
use fructus.Adapter.Books.RoundTrip.{IsSided, load_book-save_book}
use fructus.Adapter.Events.{queued, append_event, emit_fill_events}
use fructus.Adapter.Events.Ring.{
  IsRing, Appended, Emitted, append_event-Appended, emit_fill_events-Emitted,
}
use fructus.Adapter.Crank.{drain_events}
use fructus.Protocol.Orderly.Kept.{IsKept}
use fructus.Protocol.Orderly.Orders.{crank-IsKept}
use fructus.Handlers.Orders.{crank, persist, place_limit_order}
use fructus.Handlers.Orders.Preservation.{persist_total, place_limit_order-IsOrderly}
use fructus.Tests.Fixtures.{value_of, pool, account, account-IsOrderly}

abbrev nobody : Order
nobody = record { owner = 0; side = Side.bid; price = 0; size = 0; seq = 0 }

-- The account's book without the ask of 3.
abbrev cancelled : Book × Order
cancelled = value_of (cancel (load_book account) 3 5) (load_book account, nobody)

cancelled-ok : cancel (load_book account) 3 5 ≡ ok cancelled
unfolding cancel load_book
cancelled-ok = refl

cancel-Cancelled_example : Cancelled (load_book account) 3 5 cancelled.0 cancelled.1
cancel-Cancelled_example = cancel-Cancelled (load_book account) 3 5 cancelled-ok

mid_of_account : mid (load_book account) ≡ some 100
unfolding mid load_book
mid_of_account = refl

mid_between_example :
    All (λ b. b.price ≤ 100) (load_book account).bids
    × All (λ a. 100 ≤ a.price) (load_book account).asks
mid_between_example = mid_between (load_book account) account-IsOrderly mid_of_account

-- A bid at 115 takes the ask at 110.
abbrev placed : OrderBook
placed = value_of (place_limit_order account pool 1 20 0 115 70) account

placed-ok : place_limit_order account pool 1 20 0 115 70 ≡ ok placed
unfolding place_limit_order fructus.Adapter.Books.side_from_u8 fructus.Exchange.read_stake_pool
    fructus.Exchange.stake_pool_program_id fructus.Adapter.Books.take_next_seq load_book
    fructus.Orderbook.would_cross fructus.Adapter.Takers.match_limit_taker emit_fill_events
    fructus.Orderbook.Engine.match_order fructus.Orderbook.Engine.own_side
    fructus.Orderbook.Engine.post_limit save_book
placed-ok = refl

place_limit_order-IsOrderly_example : IsOrderly (load_book placed)
place_limit_order-IsOrderly_example =
    place_limit_order-IsOrderly account pool 1 20 0 115 70 account-IsOrderly placed-ok

-- The account's own book, written back.
abbrev saved : OrderBook
saved = value_of (save_book account (load_book account)) account

saved-ok : save_book account (load_book account) ≡ ok saved
unfolding save_book load_book
saved-ok = refl

account-IsSided : IsSided (load_book account)
unfolding load_book
account-IsSided = record { bids_bid = (refl, tt); asks_ask = (refl, tt) }

load_book-save_book_example : load_book saved ≡ load_book account
load_book-save_book_example =
    load_book-save_book account (load_book account) account-IsSided saved-ok

persist_total_example :
    (account' : OrderBook) × (persist account (load_book account) 20 ≡ ok account')
persist_total_example = persist_total account (load_book account) 20 refl refl account-IsOrderly

account-IsRing : IsRing account
account-IsRing = record {
  slots = refl;
  ordered = omega arith;
  bounded = omega arith;
  numbered = λ i h k. absurd (omega arith);
}

append_event-Appended_example :
    ((queued account ≡ event_queue_len) × (append_event account empty_event ≡ (false, account)))
    ⊎ ((queued account < event_queue_len)
        × ((append_event account empty_event).0 ≡ true)
        × Appended account empty_event (append_event account empty_event).1)
append_event-Appended_example =
    append_event-Appended account empty_event account-IsRing (omega arith)

abbrev fill : Fill
fill = record { maker_seq = 5; maker_owner = 3; taker_owner = 1; size = 60; price = 110 }

emit_fill_events-Emitted_example :
    Emitted account
      (fill ∷ fill ∷ [])
      Side.ask
      1250
      1000
      (emit_fill_events account (fill ∷ fill ∷ []) Side.ask 1250 1000)
emit_fill_events-Emitted_example =
    emit_fill_events-Emitted account (fill ∷ fill ∷ []) Side.ask 1250 1000 account-IsRing
      (omega arith)

-- The residual of a bid at 120 waits on the ring.
abbrev deferring : OrderBook
deferring = record account {
  event_write_cursor = 1;
  events =
      record empty_event { price = 120; size = 30; owner = 7; kind = 2 } ∷ replicate 31 empty_event;
}

deferring-IsKept : IsKept deferring
unfolding load_book
deferring-IsKept = record {
  orderly = account-IsOrderly;
  bid_slots = refl;
  ask_slots = refl;
  ring = refl;
}

abbrev cranked : OrderBook
cranked = value_of (crank deferring pool 20) deferring

cranked-ok : crank deferring pool 20 ≡ ok cranked
unfolding crank drain_events load_book fructus.Adapter.Events.event_at
    fructus.Adapter.Books.side_from_u8 queued fructus.Orderbook.Engine.match_order
    fructus.Adapter.Books.take_next_seq fructus.Adapter.Takers.match_limit_taker emit_fill_events
    fructus.Exchange.read_stake_pool fructus.Exchange.stake_pool_program_id persist
    fructus.Adapter.Books.save_book
cranked-ok = refl

crank-IsKept_example : IsKept cranked
crank-IsKept_example = crank-IsKept deferring pool 20 deferring-IsKept cranked-ok
