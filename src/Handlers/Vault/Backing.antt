-- ===== src/Handlers/Vault/Backing.antt =====
-- `deposit_collateral` and `withdraw_collateral` keep the vault's balance in step with what the program
-- owes out of it.
use fructus.Base.{ℕ, ◌+◌, ◌≤◌, ◌≡◌, refl, sym, ap, subst, Bool, not, some, arith, ◌==◌}
use fructus.Errors.{ok, FructusError, >>=-eq-ok}
use fructus.Errors.Steps.{ok-injective, require-eq-ok, ok_or-eq-ok}
use fructus.State.{UserCollateral}
use fructus.Collateral.{deposit, withdraw}
use fructus.Settlement.{claim_payout}
use fructus.Settlement.Conservation.{claim_payout_conserves}
use fructus.Handlers.Vault.{
  Transfer, Custody, ledger_or_fresh, deposit_collateral, withdraw_collateral,
}

-- What is owed out of the vault to one user and to the pool.
abbrev pub owed : ℕ → Custody → ℕ
owed bump c = (ledger_or_fresh bump c.ledger).deposited + c.market.pnl_pool

-- The token program's transfer: it takes the amount from one balance and adds it to the other.
abbrev pub Moves : Transfer → Type 0
Moves transfer =
    (from to amount : ℕ) (r : ℕ × ℕ)
    → transfer from to amount ≡ ok r
    → (r.0 + amount ≡ from) × (r.1 ≡ to + amount)

deposit_lem : (a b : ℕ) {r : ℕ} → deposit a b ≡ some r → r ≡ a + b
unfolding deposit
deposit_lem a b h = ground arith

withdraw_lem : (a b c : ℕ) {r : ℕ} → withdraw a b c ≡ some r → (r + c ≡ a) × (b ≤ r)
unfolding withdraw
withdraw_lem a b c h = ground arith

-- A deposit that goes through adds the amount to the vault and to what is owed out of it alike, and takes
-- it from the user's account: the vault stays as far ahead of its debts as it was. The reserve stays.
pub deposit_collateral_backed :
    (transfer : Transfer) (c : Custody) (vault_is_empty : Bool) (bump amount : ℕ) {c' : Custody}
    → Moves transfer
    → deposit_collateral transfer c vault_is_empty bump amount ≡ ok c'
    → (c'.vault ≡ c.vault + amount)
      × (owed bump c' ≡ owed bump c + amount)
      × (c'.user_ata + amount ≡ c.user_ata)
      × ((ledger_or_fresh bump c'.ledger).reserved ≡ (ledger_or_fresh bump c.ledger).reserved)
unfolding deposit_collateral
deposit_collateral_backed transfer c vault_is_empty bump amount m e =
    let ledger : UserCollateral = ledger_or_fresh bump c.ledger in
    let overflow : FructusError = FructusError.arithmetic_overflow in
    let (h1, e1) = require-eq-ok (not (amount == 0)) FructusError.invalid_size _ e in
    let (h2, e2) = require-eq-ok (not vault_is_empty) FructusError.vault_not_initialized _ e1 in
    let (moved, h3, e3) = >>=-eq-ok (transfer c.user_ata c.vault amount) _ e2 in
    let (claimed, h4, e4) =
      ok_or-eq-ok (claim_payout ledger.deposited ledger.claimable c.market.pnl_pool) overflow _
        e3 in
    let (deposited, h5, e5) = ok_or-eq-ok (deposit claimed.0 amount) overflow _ e4 in
    let (k1, k2) = m c.user_ata c.vault amount moved h3 in
    let (k3, k4, k5) = claim_payout_conserves _ _ _ h4 in
    let k6 = deposit_lem _ _ h5 in
    subst
      (λ x.
        (x.vault ≡ c.vault + amount)
        × (owed bump x ≡ owed bump c + amount)
        × (x.user_ata + amount ≡ c.user_ata)
        × ((ledger_or_fresh bump x.ledger).reserved ≡ ledger.reserved))
      (ok-injective e5) (k2, omega (arith, k3, k6), k1, refl)

-- A withdrawal that goes through takes the amount from the vault and from what is owed out of it alike,
-- and adds it to the user's account. What the user has in reserve stays, and stays covered.
pub withdraw_collateral_backed :
    (transfer : Transfer) (c : Custody) (ledger : UserCollateral) (vault_is_empty : Bool)
    (amount : ℕ) {c' : Custody}
    → Moves transfer
    → c.ledger ≡ some ledger
    → withdraw_collateral transfer c ledger vault_is_empty amount ≡ ok c'
    → (c'.vault + amount ≡ c.vault)
      × (owed ledger.bump c' + amount ≡ owed ledger.bump c)
      × (c'.user_ata ≡ c.user_ata + amount)
      × ((ledger_or_fresh ledger.bump c'.ledger).reserved ≡ ledger.reserved)
      × (ledger.reserved ≤ (ledger_or_fresh ledger.bump c'.ledger).deposited)
unfolding withdraw_collateral
withdraw_collateral_backed transfer c ledger vault_is_empty amount m q e =
    let overflow : FructusError = FructusError.arithmetic_overflow in
    let (h1, e1) = require-eq-ok (not (amount == 0)) FructusError.invalid_size _ e in
    let (h2, e2) = require-eq-ok (not vault_is_empty) FructusError.vault_not_initialized _ e1 in
    let (claimed, h4, e4) =
      ok_or-eq-ok (claim_payout ledger.deposited ledger.claimable c.market.pnl_pool) overflow _
        e2 in
    let (left, h5, e5) =
      ok_or-eq-ok (withdraw claimed.0 ledger.reserved amount)
        FructusError.insufficient_free_collateral _ e4 in
    let (moved, h3, e6) = >>=-eq-ok (transfer c.vault c.user_ata amount) _ e5 in
    let (k1, k2) = m c.vault c.user_ata amount moved h3 in
    let (k3, k4, k5) = claim_payout_conserves _ _ _ h4 in
    let (k6, k7) = withdraw_lem _ _ _ h5 in
    let k8 : owed ledger.bump c ≡ ledger.deposited + c.market.pnl_pool =
      ap (λ l. (ledger_or_fresh ledger.bump l).deposited + c.market.pnl_pool) q in
    subst
      (λ x.
        (x.vault + amount ≡ c.vault)
        × (owed ledger.bump x + amount ≡ owed ledger.bump c)
        × (x.user_ata ≡ c.user_ata + amount)
        × ((ledger_or_fresh ledger.bump x.ledger).reserved ≡ ledger.reserved)
        × (ledger.reserved ≤ (ledger_or_fresh ledger.bump x.ledger).deposited))
      (ok-injective e6) (k1, omega (arith, k3, k6, k8), k2, refl, k7)

-- Behind a deposit or a withdrawal that goes through there is a ledger, and the margin ratio is what it
-- was.
pub deposit_collateral-ledger :
    (transfer : Transfer) (c : Custody) (vault_is_empty : Bool) (bump amount : ℕ) {c' : Custody}
    → deposit_collateral transfer c vault_is_empty bump amount ≡ ok c'
    → (u : UserCollateral) × (c'.ledger ≡ some u)
      × (c'.market.initial_margin_bps ≡ c.market.initial_margin_bps)
unfolding deposit_collateral
deposit_collateral-ledger transfer c vault_is_empty bump amount e =
    let ledger : UserCollateral = ledger_or_fresh bump c.ledger in
    let overflow : FructusError = FructusError.arithmetic_overflow in
    let (h1, e1) = require-eq-ok (not (amount == 0)) FructusError.invalid_size _ e in
    let (h2, e2) = require-eq-ok (not vault_is_empty) FructusError.vault_not_initialized _ e1 in
    let (moved, h3, e3) = >>=-eq-ok (transfer c.user_ata c.vault amount) _ e2 in
    let (claimed, h4, e4) =
      ok_or-eq-ok (claim_payout ledger.deposited ledger.claimable c.market.pnl_pool) overflow _
        e3 in
    let (deposited, h5, e5) = ok_or-eq-ok (deposit claimed.0 amount) overflow _ e4 in
    (
      record ledger { deposited = deposited; claimable = claimed.1 },
      ap (λ x. x.ledger) (sym (ok-injective e5)),
      ap (λ x. x.market.initial_margin_bps) (sym (ok-injective e5)),
    )

pub withdraw_collateral-ledger :
    (transfer : Transfer) (c : Custody) (ledger : UserCollateral) (vault_is_empty : Bool)
    (amount : ℕ) {c' : Custody}
    → withdraw_collateral transfer c ledger vault_is_empty amount ≡ ok c'
    → (u : UserCollateral) × (c'.ledger ≡ some u)
      × (c'.market.initial_margin_bps ≡ c.market.initial_margin_bps)
unfolding withdraw_collateral
withdraw_collateral-ledger transfer c ledger vault_is_empty amount e =
    let overflow : FructusError = FructusError.arithmetic_overflow in
    let (h1, e1) = require-eq-ok (not (amount == 0)) FructusError.invalid_size _ e in
    let (h2, e2) = require-eq-ok (not vault_is_empty) FructusError.vault_not_initialized _ e1 in
    let (claimed, h4, e4) =
      ok_or-eq-ok (claim_payout ledger.deposited ledger.claimable c.market.pnl_pool) overflow _
        e2 in
    let (left, h5, e5) =
      ok_or-eq-ok (withdraw claimed.0 ledger.reserved amount)
        FructusError.insufficient_free_collateral _ e4 in
    let (moved, h3, e6) = >>=-eq-ok (transfer c.vault c.user_ata amount) _ e5 in
    (
      record ledger { deposited = left; claimable = claimed.1 },
      ap (λ x. x.ledger) (sym (ok-injective e6)),
      ap (λ x. x.market.initial_margin_bps) (sym (ok-injective e6)),
    )
