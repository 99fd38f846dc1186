-- ===== src/Handlers/Liquidating.antt =====
-- programs/fructus/src/lib.rs: `liquidate`.
pub mod Safety
use fructus.Base.{
  ℕ, ◌-◌, Bool, true, false, Option, none, some, ◌⊎◌, inl, inr, ltb, ◌==◌, checked_add, checked_sub,
  saturating_sub, min_of, u64_size,
}
use fructus.Int.{ℤ, abs}
use fructus.Errors.{Result, ok, err, Error, FructusError, require, ok_or, ◌>>=◌, ◌>>◌}
use fructus.Constants.{liquidation_penalty_bps, liquidation_twap_window}
use fructus.Exchange.{AccountInfo, read_stake_pool}
use fructus.State.{OrderBook, PerpMarket, Position, UserCollateral}
use fructus.Orderbook.Twap.{twap}
use fructus.Positions.{PositionSide, pnl, from_side_u8}
use fructus.Liquidation.{LiquidateError, to_fructus_error, liquidatable, apply_liquidation}
use fructus.Settlement.{apply_liquidation_loss}
use fructus.Adapter.Observations.{engine_observations}
use fructus.Handlers.Runtime.{Runtime, verify_collateral_pda}
use fructus.Handlers.Settling.{known_side}

-- The accounts that a liquidation writes; the victim's ledger and the liquidator's are two accounts.
pub record Parties : Type 0 where
  pub market : PerpMarket
  pub position : Position
  pub user_collateral : UserCollateral
  pub liquidator_collateral : UserCollateral

abbrev pub or_false : Option Bool → Bool
or_false none = false
or_false (some b) = b

-- The checks before the health of the position is looked at.
unfoldable pub check_target : Runtime → ℕ → Parties → ℕ → OrderBook → ℕ → Result PositionSide
check_target rt market_key s collateral_key order_book now_slot = do
  require (s.position.market == market_key) FructusError.position_not_found
  require (ltb 0 s.position.notional) FructusError.position_not_found
  side ← known_side (from_side_u8 s.position.side)
  verify_collateral_pda rt market_key s.position.owner collateral_key
  reference ←
      ok_or (twap (engine_observations order_book) liquidation_twap_window now_slot)
        FructusError.not_liquidatable
  ok side

-- The unrealized PnL of a position that is liquidatable.
unfoldable pub check_health : Parties → AccountInfo → PositionSide → Result ℤ
check_health s index_source side = do
  rate ← read_stake_pool index_source
  amount ←
      ok_or
        (pnl s.position.entry_n_sum s.position.entry_d_sum rate.total_lamports
          rate.pool_token_supply s.position.notional side)
        FructusError.arithmetic_overflow
  require
      (or_false (
        liquidatable s.position.collateral amount s.position.notional
          s.market.maintenance_margin_bps))
      FructusError.not_liquidatable
  ok amount

abbrev pub from_liquidation : LiquidateError ⊎ (ℕ × ℕ) → Result (ℕ × ℕ)
from_liquidation (inl e) = err (Error.custom (to_fructus_error e))
from_liquidation (inr r) = ok r

-- The position and the ledgers behind a liquidation of `amount` that keeps `remaining` as margin and
-- pays `reward`, at the PnL `unrealized`.
unfoldable pub book_liquidation : Parties → ℤ → ℕ → ℕ → ℕ → Result Parties
book_liquidation s unrealized amount remaining reward = do
  let consumed = saturating_sub s.position.collateral remaining
  new_notional ← ok_or (checked_sub s.position.notional amount) FructusError.arithmetic_overflow
  new_reserved ←
      ok_or (checked_sub s.user_collateral.reserved consumed) FructusError.arithmetic_overflow
  let loss = min_of (abs unrealized) (u64_size - 1)
  booked ←
      ok_or (apply_liquidation_loss s.user_collateral.deposited new_reserved loss reward)
        FructusError.arithmetic_overflow
  new_pool ←
      ok_or (checked_add u64_size s.market.pnl_pool booked.1) FructusError.arithmetic_overflow
  credited ←
      ok_or (checked_add u64_size s.liquidator_collateral.deposited reward)
        FructusError.arithmetic_overflow
  debited ← ok_or (checked_sub booked.0 reward) FructusError.arithmetic_overflow
  ok (record {
    market = record s.market { pnl_pool = new_pool };
    position = record s.position { notional = new_notional; collateral = remaining };
    user_collateral = record s.user_collateral { reserved = new_reserved; deposited = debited };
    liquidator_collateral = record s.liquidator_collateral { deposited = credited };
  })

unfoldable pub liquidate_amount : Parties → ℤ → ℕ → Result Parties
unfolding to_fructus_error book_liquidation
liquidate_amount s unrealized amount = do
  split ← from_liquidation (
      apply_liquidation s.position.collateral s.position.notional amount s.market.initial_margin_bps
        s.market.maintenance_margin_bps liquidation_penalty_bps)
  book_liquidation s unrealized amount split.0 split.1

unfoldable pub liquidate :
    Runtime → ℕ → Parties → ℕ → OrderBook → AccountInfo → ℕ → ℕ → Result Parties
unfolding check_target check_health liquidate_amount
liquidate rt market_key s collateral_key order_book index_source now_slot amount = do
  side ← check_target rt market_key s collateral_key order_book now_slot
  unrealized ← check_health s index_source side
  liquidate_amount s unrealized amount
