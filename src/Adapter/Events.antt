-- ===== src/Adapter/Events.antt =====
-- programs/fructus/src/lib.rs: the bounded ring of events.
pub mod Ring
pub mod Writes
use fructus.Base.{
  ℕ, ◌+◌, ◌-◌, ◌%◌, Bool, true, false, ◌&&◌, not, Option, none, some, List, [], ◌∷◌, leb, ◌==◌,
  if◌then◌else◌, get_or, set, saturating_sub, wrapping_add, u64_size,
}
use fructus.Errors.{Result, ok, err, Error, FructusError, require, ◌>>◌}
use fructus.Constants.{event_queue_len, event_kind_fill}
use fructus.State.{OrderBook, OutEvent, empty_event}
use fructus.Orderbook.{Side, Fill}
use fructus.Adapter.Books.{side_to_u8}

-- The slot of the ring that a cursor or sequence number stands for.
abbrev pub ring_index : ℕ → ℕ
ring_index cursor = cursor % event_queue_len

unfoldable pub event_at : OrderBook → ℕ → OutEvent
event_at account seq = get_or account.events (ring_index seq) empty_event

-- `queued` of `append_event` and `drain_events`.
unfoldable pub queued : OrderBook → ℕ
queued account = saturating_sub account.event_write_cursor account.event_read_cursor

unfoldable pub push_event : OrderBook → OutEvent → OrderBook
push_event account event = record account {
  events =
      set account.events (ring_index account.event_write_cursor)
        (record event { seq = account.event_write_cursor; settled = 0 });
  event_write_cursor = wrapping_add u64_size account.event_write_cursor 1;
}

-- The event's own `seq` and `settled` are overwritten.
unfoldable pub append_event : OrderBook → OutEvent → Bool × OrderBook
unfolding queued push_event
append_event account event =
    if leb event_queue_len (queued account)
    then (false, account)
    else (true, push_event account event)

unfoldable pub fill_event : Side → ℕ → ℕ → Fill → OutEvent
unfolding side_to_u8
fill_event maker_side entry_total_lamports entry_pool_token_supply f = record {
  seq = 0;
  price = f.price;
  size = f.size;
  owner = f.maker_owner;
  counterparty = f.taker_owner;
  entry_total_lamports = entry_total_lamports;
  entry_pool_token_supply = entry_pool_token_supply;
  settled = 0;
  kind = event_kind_fill;
  side = side_to_u8 maker_side;
}

-- The account comes back after a failure too: what was appended stays.
unfoldable pub emit_fill_events :
    OrderBook → List Fill → Side → ℕ → ℕ → Result (Unit {0}) × OrderBook
unfolding append_event fill_event
emit_fill_events account [] maker_side n d = (ok tt, account)
emit_fill_events account (f ∷ fs) maker_side n d =
    let (appended, account') = append_event account (fill_event maker_side n d f) in
    let rest = emit_fill_events account' fs maker_side n d in
    if appended then rest else (err (Error.custom FructusError.book_full), account')

unfoldable pub settle_event : OrderBook → ℕ → Result (Option OutEvent)
unfolding event_at
settle_event account seq =
    let event = event_at account seq in
    if event.seq == seq && event.kind == event_kind_fill && not (event.settled == 0)
    then ok none
    else (require (event.seq == seq) FructusError.event_not_found
        >> (require (event.kind == event_kind_fill) FructusError.event_not_found
            >> (require (event.settled == 0) FructusError.event_not_found >> ok (some event))))
