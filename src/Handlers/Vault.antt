-- ===== src/Handlers/Vault.antt =====
-- programs/fructus/src/lib.rs: `deposit_collateral` and `withdraw_collateral`. `transfer from to amount`
-- is the token program's transfer, on the balances of the two token accounts.
pub mod Backing
use fructus.Base.{ℕ, Bool, not, Option, none, some, ◌==◌}
use fructus.Errors.{Result, ok, err, FructusError, require, ok_or, ◌>>=◌, ◌>>◌}
use fructus.State.{PerpMarket, UserCollateral}
use fructus.Settlement.{claim_payout}
use fructus.Collateral
use fructus.Collateral.{deposit, withdraw}

abbrev pub Transfer : Type 0
Transfer = ℕ → ℕ → ℕ → Result (ℕ × ℕ)

-- The accounts that a deposit or withdrawal writes: the balances of the vault and of the user's token
-- account, the user's ledger (`none` before the first deposit) and the market.
pub record Custody : Type 0 where
  pub vault : ℕ
  pub user_ata : ℕ
  pub ledger : Option UserCollateral
  pub market : PerpMarket

abbrev pub ledger_or_fresh : ℕ → Option UserCollateral → UserCollateral
ledger_or_fresh bump none = record { deposited = 0; reserved = 0; claimable = 0; bump = bump }
ledger_or_fresh bump (some ledger) = record ledger { bump = bump }

unfoldable pub deposit_collateral : Transfer → Custody → Bool → ℕ → ℕ → Result Custody
deposit_collateral transfer c vault_is_empty bump amount = do
  require (not (amount == 0)) FructusError.invalid_size
  require (not vault_is_empty) FructusError.vault_not_initialized
  moved ← transfer c.user_ata c.vault amount
  let ledger = ledger_or_fresh bump c.ledger
  claimed ←
      ok_or (claim_payout ledger.deposited ledger.claimable c.market.pnl_pool)
        FructusError.arithmetic_overflow
  deposited ← ok_or (deposit claimed.0 amount) FructusError.arithmetic_overflow
  ok (record {
    vault = moved.1;
    user_ata = moved.0;
    ledger = some (record ledger { deposited = deposited; claimable = claimed.1 });
    market = record c.market { pnl_pool = claimed.2 };
  })

-- The ledger exists: the framework has read it.
unfoldable pub withdraw_collateral : Transfer → Custody → UserCollateral → Bool → ℕ → Result Custody
withdraw_collateral transfer c ledger vault_is_empty amount = do
  require (not (amount == 0)) FructusError.invalid_size
  require (not vault_is_empty) FructusError.vault_not_initialized
  claimed ←
      ok_or (claim_payout ledger.deposited ledger.claimable c.market.pnl_pool)
        FructusError.arithmetic_overflow
  new_deposited ←
      ok_or (withdraw claimed.0 ledger.reserved amount) FructusError.insufficient_free_collateral
  moved ← transfer c.vault c.user_ata amount
  ok (record {
    vault = moved.0;
    user_ata = moved.1;
    ledger = some (record ledger { deposited = new_deposited; claimable = claimed.1 });
    market = record c.market { pnl_pool = claimed.2 };
  })
