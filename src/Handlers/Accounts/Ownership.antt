-- ===== src/Handlers/Accounts/Ownership.antt =====
-- Whose accounts an instruction gets at: the instructions `withdraw_collateral`, `close_position` and
-- `reset_position` of programs/fructus/src/lib.rs with the constraints on their accounts.
use fructus.Base.{ℕ, ◌≡◌, ◌∙◌, true, some, arith}
use fructus.Errors.{Result, ok}
use fructus.Exchange.{AccountInfo}
use fructus.Handlers.Runtime.{Runtime, PdaAccount, position_pda, collateral_pda}
use fructus.Handlers.Vault.{Transfer, Custody, withdraw_collateral}
use fructus.Handlers.Lifecycle.{Trading, close_position, reset_position}
use fructus.Handlers.Accounts.{Framework, admitted, admitted-eq-ok}
use fructus.Handlers.Accounts.Users.{
  WithdrawCollateral, admits_withdraw_collateral, ClosePosition, admits_close_position,
  ResetPosition, admits_reset_position,
}

-- `balance` and `vault_balance` are those of `user_ata` and `vault`.
unfoldable pub run_withdraw_collateral :
    Framework → Transfer → WithdrawCollateral → ℕ → ℕ → ℕ → Result Custody
run_withdraw_collateral fw transfer c balance vault_balance amount =
    admitted (admits_withdraw_collateral fw c) (
      withdraw_collateral transfer
        (record {
          vault = vault_balance;
          user_ata = balance;
          ledger = some c.user_collateral.value;
          market = c.market.value;
        })
        c.user_collateral.value c.vault.data_is_empty amount)

-- `t` is what the accounts of the struct hold, `source` the data of the index source.
unfoldable pub run_close_position :
    Framework → ClosePosition → Trading → AccountInfo → ℕ → ℕ → ℕ → Result Trading
run_close_position fw c t source now_slot side size =
    admitted (admits_close_position fw c side)
      (close_position c.market.value t source c.owner.key now_slot side size)

unfoldable pub run_reset_position : Framework → ResetPosition → PdaAccount → ℕ → Result PdaAccount
run_reset_position fw c position side =
    admitted (admits_reset_position fw c side) (reset_position position side)

-- No two users have one ledger address, and no two pairs of a user and a side one position address.
pub record Separates (rt : Runtime) : Type 0 where
  pub ledgers :
      (market_key u v : ℕ)
      → (collateral_pda rt market_key u).0 ≡ (collateral_pda rt market_key v).0
      → u ≡ v
  pub positions :
      (market_key u v side side' : ℕ)
      → (position_pda rt market_key u side).0 ≡ (position_pda rt market_key v side').0
      → u ≡ v

-- Only its owner's signature takes collateral out of a ledger: where the ledgers of different users have
-- different addresses, a `withdraw_collateral` that goes through on the ledger of `victim` is signed by
-- `victim`.
pub withdraw_collateral_owner :
    (fw : Framework) (transfer : Transfer) (c : WithdrawCollateral)
    (balance vault_balance amount victim : ℕ) {r : Custody}
    → Separates fw.runtime
    → c.user_collateral.info.key ≡ (collateral_pda fw.runtime c.market.info.key victim).0
    → run_withdraw_collateral fw transfer c balance vault_balance amount ≡ ok r
    → (c.user.is_signer ≡ true) × (c.user.key ≡ victim)
unfolding run_withdraw_collateral admits_withdraw_collateral
withdraw_collateral_owner fw transfer c balance vault_balance amount victim apart at e =
    let (h, e1) = admitted-eq-ok (admits_withdraw_collateral fw c) _ e in
    let same : (collateral_pda fw.runtime c.market.info.key c.user.key).0
        ≡ c.user_collateral.info.key =
      ground arith in
    (ground arith, apart.ledgers c.market.info.key c.user.key victim (same ∙ at))

-- The same of a `close_position` on a position of `victim`.
pub close_position_owner :
    (fw : Framework) (c : ClosePosition) (t : Trading) (source : AccountInfo)
    (now_slot side size victim side' : ℕ) {r : Trading}
    → Separates fw.runtime
    → c.position.key ≡ (position_pda fw.runtime c.market.info.key victim side').0
    → run_close_position fw c t source now_slot side size ≡ ok r
    → (c.owner.is_signer ≡ true) × (c.owner.key ≡ victim)
unfolding run_close_position admits_close_position
close_position_owner fw c t source now_slot side size victim side' apart at e =
    let (h, e1) = admitted-eq-ok (admits_close_position fw c side) _ e in
    let same : (position_pda fw.runtime c.market.info.key c.owner.key side).0 ≡ c.position.key =
      ground arith in
    (ground arith, apart.positions c.market.info.key c.owner.key victim side side' (same ∙ at))

-- The same of a `reset_position` on a position of `victim`.
pub reset_position_owner :
    (fw : Framework) (c : ResetPosition) (position : PdaAccount) (side victim side' : ℕ)
    {r : PdaAccount}
    → Separates fw.runtime
    → c.position.key ≡ (position_pda fw.runtime c.market.info.key victim side').0
    → run_reset_position fw c position side ≡ ok r
    → (c.user.is_signer ≡ true) × (c.user.key ≡ victim)
unfolding run_reset_position admits_reset_position
reset_position_owner fw c position side victim side' apart at e =
    let (h, e1) = admitted-eq-ok (admits_reset_position fw c side) _ e in
    let same : (position_pda fw.runtime c.market.info.key c.user.key side).0 ≡ c.position.key =
      ground arith in
    (ground arith, apart.positions c.market.info.key c.user.key victim side side' (same ∙ at))
