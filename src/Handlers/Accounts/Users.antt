-- ===== src/Handlers/Accounts/Users.antt =====
-- programs/fructus/src/lib.rs: the accounts of the instructions of a user on collateral and positions.
use fructus.Base.{ℕ, Bool, ◌&&◌, [], ◌∷◌, ◌==◌}
use fructus.State.{PerpMarket, UserCollateral}
use fructus.Handlers.Runtime.{vault_seed, position_pda, collateral_pda}
use fructus.Handlers.Accounts.{Account, Loaded, Framework, at_seeds}
use fructus.Handlers.Accounts.Markets.{is_market, is_order_book}

-- The ledger of a user, and the user's position on a side, at the PDAs of the market.
abbrev pub is_ledger_of : Framework → Loaded PerpMarket → Account → Account → Bool
is_ledger_of fw m user ledger = (collateral_pda fw.runtime m.info.key user.key).0 == ledger.key

abbrev pub is_position_of : Framework → Loaded PerpMarket → Account → ℕ → Account → Bool
is_position_of fw m user side position =
    (position_pda fw.runtime m.info.key user.key side).0 == position.key

-- `associated_token::mint`, `associated_token::authority`
abbrev pub is_token_account_of : Framework → Account → Account → Account → Bool
is_token_account_of fw user mint ata = fw.associated_token_address user.key mint.key == ata.key

pub record DepositCollateral : Type 0 where
  pub user : Account
  pub market : Loaded PerpMarket
  pub user_collateral : Account
  pub vault : Account
  pub user_ata : Account
  pub collateral_mint : Account

unfoldable pub admits_deposit_collateral : Framework → DepositCollateral → Bool
admits_deposit_collateral fw c =
    c.user.is_signer
    && c.user.is_writable
    && c.market.info.is_writable
    && is_market fw c.market
    && c.user_collateral.is_writable
    && is_ledger_of fw c.market c.user c.user_collateral
    && c.vault.is_writable
    && at_seeds fw (vault_seed ∷ []) c.vault
    && c.user_ata.is_writable
    && is_token_account_of fw c.user c.collateral_mint c.user_ata
    && c.collateral_mint.key == c.market.value.collateral_mint

pub record WithdrawCollateral : Type 0 where
  pub user : Account
  pub market : Loaded PerpMarket
  pub user_collateral : Loaded UserCollateral
  pub vault : Account
  pub user_ata : Account
  pub collateral_mint : Account

unfoldable pub admits_withdraw_collateral : Framework → WithdrawCollateral → Bool
admits_withdraw_collateral fw c =
    c.user.is_signer
    && c.market.info.is_writable
    && is_market fw c.market
    && c.user_collateral.info.is_writable
    && is_ledger_of fw c.market c.user c.user_collateral.info
    && c.vault.is_writable
    && at_seeds fw (vault_seed ∷ []) c.vault
    && c.user_ata.is_writable
    && is_token_account_of fw c.user c.collateral_mint c.user_ata
    && c.collateral_mint.key == c.market.value.collateral_mint

pub record OpenPosition : Type 0 where
  pub owner : Account
  pub market : Loaded PerpMarket
  pub order_book : Account
  pub index_source : Account
  pub position : Account
  pub user_collateral : Account

-- The `side` of the instruction is a seed of the position.
unfoldable pub admits_open_position : Framework → OpenPosition → ℕ → Bool
admits_open_position fw c side =
    c.owner.is_signer
    && c.owner.is_writable
    && is_market fw c.market
    && c.order_book.is_writable
    && is_order_book fw c.market c.order_book
    && c.index_source.key == c.market.value.index_source
    && c.position.is_writable
    && is_position_of fw c.market c.owner side c.position
    && c.user_collateral.is_writable
    && is_ledger_of fw c.market c.owner c.user_collateral

pub record ClosePosition : Type 0 where
  pub owner : Account
  pub market : Loaded PerpMarket
  pub order_book : Account
  pub index_source : Account
  pub position : Account
  pub user_collateral : Account

unfoldable pub admits_close_position : Framework → ClosePosition → ℕ → Bool
admits_close_position fw c side =
    c.owner.is_signer
    && is_market fw c.market
    && c.order_book.is_writable
    && is_order_book fw c.market c.order_book
    && c.index_source.key == c.market.value.index_source
    && c.position.is_writable
    && is_position_of fw c.market c.owner side c.position
    && c.user_collateral.is_writable
    && is_ledger_of fw c.market c.owner c.user_collateral

pub record ResetPosition : Type 0 where
  pub market : Loaded PerpMarket
  pub position : Account
  pub user : Account

unfoldable pub admits_reset_position : Framework → ResetPosition → ℕ → Bool
admits_reset_position fw c side =
    is_market fw c.market
    && c.position.is_writable
    && is_position_of fw c.market c.user side c.position
    && c.user.is_signer
