-- ===== src/Handlers/Lifecycle.antt =====
-- programs/fructus/src/lib.rs: `open_position`, `close_position`, `settle_fill` and `reset_position`.
pub mod Once
pub mod Preservation
pub mod Closing
use fructus.Base.{
  ℕ, ◌-◌, Bool, true, false, not, Option, none, some, List, [], ◌∷◌, ltb, leb, ◌==◌, if◌then◌else◌,
  set, u64_size,
}
use fructus.Errors.{Result, ok, err, Error, FructusError, require, ◌>>=◌, ◌>>◌}
use fructus.Exchange.{AccountInfo, ExchangeRate, read_stake_pool}
use fructus.State.{OrderBook, OutEvent, PerpMarket, Position, UserCollateral}
use fructus.Positions.{validate_open_args}
use fructus.Orderbook.{Side, OrderKind, Order, Fill, MatchOutcome, Book}
use fructus.Orderbook.Engine.{match_order, opposite}
use fructus.Adapter.Books.{side_to_u8, side_from_u8, load_book, take_next_seq}
use fructus.Adapter.Events.{emit_fill_events, settle_event, ring_index}
use fructus.Adapter.Takers.{match_open_taker}
use fructus.Adapter.Fills.{apply_open_fills, apply_close_fills}
use fructus.Handlers.Runtime.{
  Runtime, PdaAccount, pristine, foreign, owned, zero_position, create_or_load, existing_ledger,
  verify_maker_accounts,
}
use fructus.Handlers.Orders.{persist}

-- The accounts that the instructions on a position write.
pub record Trading : Type 0 where
  pub order_book : OrderBook
  pub position : PdaAccount
  pub user_collateral : Option UserCollateral

-- The taker's fills settled inline; with no fill the accounts stay as they are.
unfoldable pub settle_open_fills :
    PerpMarket
    → ℕ
    → ℕ
    → Side
    → ℕ
    → PdaAccount
    → Option UserCollateral
    → ExchangeRate
    → ℕ
    → List Fill
    → Result (PdaAccount × Option UserCollateral)
settle_open_fills market market_key owner side bump account collateral rate now_slot [] =
    ok (account, collateral)
settle_open_fills market market_key owner side bump account collateral rate now_slot (f ∷ fs) = do
  position ← create_or_load account
  ledger ← existing_ledger collateral
  applied ←
      apply_open_fills
        (record position {
          bump = bump;
          market = market_key;
          owner = owner;
          side = side_to_u8 side;
        })
        ledger market.initial_margin_bps (f ∷ fs) rate.total_lamports rate.pool_token_supply
        now_slot market.funding_epoch_slots
  ok (owned applied.0, some applied.1)

unfoldable pub open_position :
    PerpMarket → ℕ → Trading → AccountInfo → ℕ → ℕ → ℕ → ℕ → ℕ → ℕ → Result Trading
unfolding settle_open_fills
open_position market market_key t index_source owner bump now_slot side size price = do
  validate_open_args side size
  parsed ← side_from_u8 side
  rate ← read_stake_pool index_source
  taken ← take_next_seq (load_book t.order_book)
  matched ←
      match_open_taker t.order_book taken.0
        (record { owner = owner; side = parsed; price = price; size = size; seq = taken.1 })
        rate.total_lamports rate.pool_token_supply
  settled ←
      settle_open_fills market market_key owner parsed bump t.position t.user_collateral rate
        now_slot matched.2
  saved ← persist matched.0 matched.1 now_slot
  ok (record { order_book = saved; position = settled.0; user_collateral = settled.1 })

-- The live position that a close starts from.
unfoldable pub live_position : PdaAccount → ℕ → Result Position
live_position pristine size = err (Error.custom FructusError.position_not_found)
live_position (foreign has_data) size = err (
    Error.custom
      (if has_data then FructusError.position_pda_squatted else FructusError.position_not_found))
live_position (owned p) size = do
  require (ltb 0 p.notional) FructusError.position_not_found
  require (leb size p.notional) FructusError.invalid_close_size
  ok p

-- Loading a ledger that does not exist fails in the framework, as an account with no data does.
unfoldable pub settle_close_fills :
    PerpMarket
    → Position
    → Option UserCollateral
    → List Fill
    → Result (PdaAccount × Option UserCollateral)
settle_close_fills market position collateral [] = ok (owned position, collateral)
settle_close_fills market position none (f ∷ fs) = err Error.invalid_account_data
settle_close_fills market position (some ledger) (f ∷ fs) = do
  applied ← apply_close_fills position ledger market.initial_margin_bps (f ∷ fs)
  ok (owned applied.0, some applied.1)

-- What `close_position` does behind the match.
unfoldable pub finish_close :
    PerpMarket → Trading → Position → Side → ExchangeRate → ℕ → Book × MatchOutcome → Result Trading
unfolding settle_close_fills
finish_close market t position parsed rate now_slot (book, outcome) = do
  let emitted =
      emit_fill_events t.order_book outcome.fills parsed rate.total_lamports rate.pool_token_supply
  emitted.0
  settled ← settle_close_fills market position t.user_collateral outcome.fills
  saved ← persist emitted.1 book now_slot
  ok (record { order_book = saved; position = settled.0; user_collateral = settled.1 })

unfoldable pub close_position : PerpMarket → Trading → AccountInfo → ℕ → ℕ → ℕ → ℕ → Result Trading
unfolding live_position finish_close
close_position market t index_source owner now_slot side size = do
  require (not (size == 0)) FructusError.invalid_size
  parsed ← side_from_u8 side
  rate ← read_stake_pool index_source
  position ← live_position t.position size
  taken ← take_next_seq (load_book t.order_book)
  let incoming : Order = record {
    owner = owner;
    side = opposite parsed;
    price = 0;
    size = size;
    seq = taken.1;
  }
  finish_close market t position parsed rate now_slot
      (match_order taken.0 incoming OrderKind.market (u64_size - 1))

-- The one fill that a maker's event stands for.
unfoldable pub fill_of : OutEvent → Fill
fill_of event = record {
  maker_seq = event.seq;
  maker_owner = event.owner;
  taker_owner = event.counterparty;
  size = event.size;
  price = event.price;
}

unfoldable pub mark_settled : OrderBook → ℕ → OutEvent → OrderBook
mark_settled account seq event = record account {
  events = set account.events (ring_index seq) (record event { settled = 1 });
}

-- A pending fill booked on its maker's position.
unfoldable pub settle_pending :
    Runtime → PerpMarket → ℕ → Trading → ℕ → ℕ → ℕ → ℕ → OutEvent → Result Trading
unfolding fill_of mark_settled
settle_pending rt market market_key t position_key collateral_key now_slot seq event = do
  bump ← verify_maker_accounts rt market_key event position_key collateral_key
  ledger ← existing_ledger t.user_collateral
  position ← create_or_load t.position
  applied ←
      apply_open_fills
        (record position {
          bump = bump;
          market = market_key;
          owner = event.owner;
          side = event.side;
        })
        ledger market.initial_margin_bps (fill_of event ∷ []) event.entry_total_lamports
        event.entry_pool_token_supply now_slot market.funding_epoch_slots
  ok (record {
    order_book = mark_settled t.order_book seq event;
    position = owned applied.0;
    user_collateral = some applied.1;
  })

unfoldable pub settle_fill : Runtime → PerpMarket → ℕ → Trading → ℕ → ℕ → ℕ → ℕ → Result Trading
unfolding settle_pending
settle_fill rt market market_key t position_key collateral_key now_slot seq =
    settle_event t.order_book seq >>= λ found. elim found [
      | none ↦ ok t
      | some event ↦
          settle_pending rt market market_key t position_key collateral_key now_slot seq event
    ]

unfoldable pub reset_position : PdaAccount → ℕ → Result PdaAccount
reset_position pristine side =
    side_from_u8 side >>= λ _. err (Error.custom FructusError.position_pda_squatted)
reset_position (foreign has_data) side =
    side_from_u8 side >>= λ _. err (Error.custom FructusError.position_pda_squatted)
reset_position (owned p) side = side_from_u8 side >>= λ _.
    require (p.notional == 0) FructusError.position_not_found
    >> ok (owned (record zero_position { bump = p.bump }))
