-- ===== src/Handlers/Settling.antt =====
-- programs/fructus/src/lib.rs: `settle_close` and `settle_funding`.
pub mod Conservation
pub mod Once
use fructus.Base.{
  ℕ, ◌*◌, Option, none, some, ◌==◌, if◌then◌else◌, checked_mul, saturating_sub, u64_size,
}
use fructus.Int.{ℤ, pos, ◌+ℤ◌, checked_i128}
use fructus.Errors.{Result, ok, err, Error, FructusError, require, ok_or, ◌>>=◌, ◌>>◌}
use fructus.Constants.{slots_per_year}
use fructus.Exchange.{AccountInfo, ExchangeRate, read_stake_pool, realized_yield, annualize}
use fructus.State.{OrderBook, PerpMarket, Position, UserCollateral}
use fructus.Orderbook.{mid}
use fructus.Positions.{PositionSide, pnl, from_side_u8}
use fructus.Settlement.{settle_signed}
use fructus.Funding.{premium, funding_rate, funding_payment, funding_epoch, from_position_side}
use fructus.Adapter.Books.{load_book}
use fructus.Handlers.Runtime.{Runtime, verify_collateral_pda}

-- The accounts that a settlement writes.
pub record Books : Type 0 where
  pub market : PerpMarket
  pub position : Position
  pub user_collateral : UserCollateral

abbrev pub known_side : Option PositionSide → Result PositionSide
known_side none = err Error.invalid_account_data
known_side (some side) = ok side

-- The checks with which `settle_close` and `settle_funding` begin.
unfoldable pub bind_accounts : Runtime → ℕ → Position → ℕ → Result PositionSide
bind_accounts rt market_key position collateral_key = do
  require (position.market == market_key) FructusError.position_not_found
  side ← known_side (from_side_u8 position.side)
  verify_collateral_pda rt market_key position.owner collateral_key
  ok side

-- A signed amount routed through the pool of the market.
unfoldable pub route : Books → ℤ → Result Books
route b amount = do
  r ←
      ok_or
        (settle_signed b.user_collateral.deposited b.user_collateral.claimable b.market.pnl_pool
          amount)
        FructusError.arithmetic_overflow
  ok (record b {
    user_collateral = record b.user_collateral { deposited = r.0; claimable = r.1 };
    market = record b.market { pnl_pool = r.2 };
  })

-- What `settle_close` does with closed notional.
unfoldable pub realize_closed : Books → AccountInfo → PositionSide → Result Books
unfolding route
realize_closed b index_source side = do
  rate ← read_stake_pool index_source
  amount ←
      ok_or
        (pnl b.position.closed_entry_n_sum b.position.closed_entry_d_sum rate.total_lamports
          rate.pool_token_supply b.position.closed_notional side)
        FructusError.arithmetic_overflow
  routed ← route b amount
  ok (record routed {
    position = record b.position {
      closed_notional = 0;
      closed_entry_n_sum = 0;
      closed_entry_d_sum = 0;
    };
  })

unfoldable pub settle_close : Runtime → ℕ → Books → ℕ → AccountInfo → Result Books
unfolding bind_accounts realize_closed
settle_close rt market_key b collateral_key index_source =
    bind_accounts rt market_key b.position collateral_key >>= λ side.
    if b.position.closed_notional == 0 then ok b else realize_closed b index_source side

-- The annualized yield from the market's baseline to the current rate; 0 with no baseline.
unfoldable pub funding_index : PerpMarket → ExchangeRate → ℕ → Result ℕ
funding_index market rate elapsed_slots =
    if market.index_d == 0
    then ok 0
    else (ok_or
          (realized_yield
            (record { total_lamports = market.index_n; pool_token_supply = market.index_d }) rate)
          FructusError.arithmetic_overflow
        >>= λ realized.
            ok_or (annualize realized elapsed_slots slots_per_year)
              FructusError.arithmetic_overflow)

abbrev pub mark_or : Option ℕ → ℕ → ℕ
mark_or none index = index
mark_or (some m) index = m

-- The payment that the position owes or is owed.
unfoldable pub payment_at : PerpMarket → Position → OrderBook → ℕ → ℕ → PositionSide → ℤ
payment_at market position order_book index epochs side =
    let mark = mark_or (mid (load_book order_book)) index in
    let rate = funding_rate (premium mark index) market.funding_k market.max_funding in
    funding_payment position.notional rate epochs (from_position_side side)

-- What `settle_funding` does when epochs have elapsed.
unfoldable pub accrue : Books → OrderBook → AccountInfo → ℕ → ℕ → PositionSide → Result Books
unfolding route funding_index payment_at ◌+ℤ◌
accrue b order_book index_source cur_epoch epochs side = do
  rate ← read_stake_pool index_source
  elapsed_slots ←
      ok_or (checked_mul u64_size epochs b.market.funding_epoch_slots)
        FructusError.arithmetic_overflow
  index ← funding_index b.market rate elapsed_slots
  let payment = payment_at b.market b.position order_book index epochs side
  routed ← route b payment
  accumulated ←
      ok_or (checked_i128 (b.market.funding_accumulator +ℤ payment))
        FructusError.arithmetic_overflow
  ok (record {
    market = record routed.market {
      funding_epoch = cur_epoch;
      index_n = rate.total_lamports;
      index_d = rate.pool_token_supply;
      funding_accumulator = accumulated;
    };
    position = record b.position { last_funding_epoch = cur_epoch };
    user_collateral = routed.user_collateral;
  })

unfoldable pub settle_funding : Runtime → ℕ → Books → ℕ → OrderBook → AccountInfo → ℕ → Result Books
unfolding bind_accounts accrue
settle_funding rt market_key b collateral_key order_book index_source now_slot =
    bind_accounts rt market_key b.position collateral_key >>= λ side.
    let cur_epoch = funding_epoch now_slot b.market.funding_epoch_slots in
    let epochs = saturating_sub cur_epoch b.position.last_funding_epoch in
    if epochs == 0 then ok b else accrue b order_book index_source cur_epoch epochs side
