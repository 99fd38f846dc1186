-- ===== src/Adapter/Crank.antt =====
-- programs/fructus/src/lib.rs: the permissionless crank drains the ring in batches and resumes the
-- residuals of takers that ran out of budget.
pub mod Orderly
use fructus.Base.{
  ℕ, zero, suc, ◌+◌, ◌-◌, Bool, true, false, ◌||◌, Option, none, some, List, [], ◌∷◌, ltb, ◌==◌,
  if◌then◌else◌, length, checked_add, saturating_sub, is_some, u64_size,
}
use fructus.Errors.{Result, ok, err, FructusError, ok_or, ◌>>=◌}
use fructus.Constants.{max_match_steps, event_queue_len, event_kind_residual, crank_batch_len}
use fructus.State.{OrderBook, OutEvent}
use fructus.Orderbook.{Side, OrderKind, Order, MatchOutcome, Book}
use fructus.Orderbook.Engine.{match_order}
use fructus.Adapter.Books.{side_from_u8, take_next_seq}
use fructus.Adapter.Events.{event_at, queued}
use fructus.Adapter.Takers.{match_limit_taker}

unfoldable pub resumed_order : OutEvent → Side → ℕ → Order
resumed_order event side seq = record {
  owner = event.owner;
  side = side;
  price = event.price;
  size = event.size;
  seq = seq;
}

-- The events that the match of the dry run would append.
unfoldable pub events_needed : Book → Order → ℕ
events_needed book incoming =
    let outcome = (match_order book incoming OrderKind.limit max_match_steps).1 in
    length outcome.fills + (if is_some outcome.residual then 1 else 0)

unfoldable pub free_slots : OrderBook → ℕ
free_slots account = saturating_sub event_queue_len (queued account)

-- Resumed, with a failure of the match ignored and what it changed kept.
unfoldable pub resume_match :
    OrderBook → Book → OutEvent → Side → ℕ → ℕ → Result (OrderBook × Book × Bool)
unfolding resumed_order
resume_match account book event side n d = do
  taken ← take_next_seq book
  let matched = match_limit_taker account taken.0 (resumed_order event side taken.1) n d
  ok (matched.1, matched.2, true)

unfoldable pub resume_residual :
    OrderBook → Book → OutEvent → ℕ → ℕ → Result (OrderBook × Book × Bool)
unfolding resumed_order events_needed free_slots resume_match
resume_residual account book event n d = side_from_u8 event.side >>= λ side.
    if ltb (free_slots account) (events_needed book (resumed_order event side book.next_seq))
    then ok (account, book, false)
    else resume_match account book event side n d

-- One event: only a residual has an effect.
unfoldable pub handle_event : OrderBook → Book → OutEvent → ℕ → ℕ → Result (OrderBook × Book × Bool)
unfolding resume_residual
handle_event account book event n d =
    if event.kind == event_kind_residual
    then resume_residual account book event n d
    else ok (account, book, false)

-- The head event taken off the ring and handled; whether the book has changed so far is `dirty`.
unfoldable pub drain_step : OrderBook → Book → Bool → ℕ → ℕ → Result (OrderBook × Book × Bool)
unfolding handle_event
drain_step account book dirty n d = do
  let event = event_at account account.event_read_cursor
  cursor ← ok_or (checked_add u64_size account.event_read_cursor 1) FructusError.arithmetic_overflow
  handled ← handle_event (record account { event_read_cursor = cursor }) book event n d
  ok (handled.0, handled.1, dirty || handled.2)

-- `rounds` is `CRANK_BATCH_LEN - processed`.
unfoldable pub drain_rounds : ℕ → OrderBook → Book → Bool → ℕ → ℕ → Result (OrderBook × Book × Bool)
unfolding drain_step
drain_rounds zero account book dirty n d = ok (account, book, dirty)
drain_rounds (suc rounds) account book dirty n d =
    elim (ltb account.event_read_cursor account.event_write_cursor) [
      | true ↦ drain_step account book dirty n d >>= λ s. drain_rounds rounds s.0 s.1 s.2 n d
      | false ↦ ok (account, book, dirty)
    ]

unfoldable pub drain_events : OrderBook → Book → ℕ → ℕ → Result (OrderBook × Book × Bool)
unfolding drain_rounds
drain_events account book n d = drain_rounds crank_batch_len account book false n d
