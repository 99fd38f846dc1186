-- ===== src/Handlers/Accounts/Settlements.antt =====
-- programs/fructus/src/lib.rs: the accounts of the permissionless instructions.
use fructus.Base.{Bool, ◌&&◌, not, ◌==◌}
use fructus.State.{PerpMarket, Position, UserCollateral}
use fructus.Handlers.Accounts.{Account, Loaded, Framework}
use fructus.Handlers.Accounts.Markets.{is_market, is_order_book}
use fructus.Handlers.Accounts.Users.{is_ledger_of}

pub record SettleFill : Type 0 where
  pub market : Loaded PerpMarket
  pub order_book : Account
  pub position : Account
  pub user_collateral : Account
  pub payer : Account

unfoldable pub admits_settle_fill : Framework → SettleFill → Bool
admits_settle_fill fw c =
    is_market fw c.market
    && c.order_book.is_writable
    && is_order_book fw c.market c.order_book
    && c.position.is_writable
    && c.user_collateral.is_writable
    && c.payer.is_writable
    && c.payer.is_signer

pub record SettleClose : Type 0 where
  pub market : Loaded PerpMarket
  pub position : Loaded Position
  pub user_collateral : Loaded UserCollateral
  pub index_source : Account

unfoldable pub admits_settle_close : Framework → SettleClose → Bool
admits_settle_close fw c =
    c.market.info.is_writable
    && is_market fw c.market
    && c.position.info.is_writable
    && c.user_collateral.info.is_writable
    && c.index_source.key == c.market.value.index_source

pub record SettleFunding : Type 0 where
  pub market : Loaded PerpMarket
  pub position : Loaded Position
  pub user_collateral : Loaded UserCollateral
  pub order_book : Account
  pub index_source : Account

unfoldable pub admits_settle_funding : Framework → SettleFunding → Bool
admits_settle_funding fw c =
    c.market.info.is_writable
    && is_market fw c.market
    && c.position.info.is_writable
    && c.user_collateral.info.is_writable
    && is_order_book fw c.market c.order_book
    && c.index_source.key == c.market.value.index_source

pub record Liquidate : Type 0 where
  pub market : Loaded PerpMarket
  pub position : Loaded Position
  pub user_collateral : Loaded UserCollateral
  pub order_book : Account
  pub index_source : Account
  pub liquidator : Account
  pub liquidator_collateral : Loaded UserCollateral

-- The framework rejects one writable account that is handed in twice: the two ledgers are distinct.
unfoldable pub admits_liquidate : Framework → Liquidate → Bool
admits_liquidate fw c =
    c.market.info.is_writable
    && is_market fw c.market
    && c.position.info.is_writable
    && c.user_collateral.info.is_writable
    && is_order_book fw c.market c.order_book
    && c.index_source.key == c.market.value.index_source
    && c.liquidator.is_signer
    && c.liquidator_collateral.info.is_writable
    && is_ledger_of fw c.market c.liquidator c.liquidator_collateral.info
    && not (c.user_collateral.info.key == c.liquidator_collateral.info.key)
