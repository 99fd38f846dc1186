-- ===== src/Handlers/Genesis.antt =====
-- programs/fructus/src/lib.rs: `initialize_order_book` and `initialize_collateral_vault`.
use fructus.Base.{arith, ℕ, ◌≡◌, refl, Bool, true, false, List, [], ◌∷◌, ◌==◌}
use fructus.Errors.{Result, ok, err, Error, FructusError, require, ◌>>=◌, ◌>>◌, >>=-eq-ok}
use fructus.Errors.Steps.{require-eq-ok}
use fructus.Constants.{usdc_decimals}
use fructus.State.{OrderBook, default_order_book}
use fructus.Handlers.Runtime.{vault_seed}

-- `load_init` hands out an account of zeros.
unfoldable pub initialize_order_book : ℕ → ℕ → Result OrderBook
initialize_order_book market_key bump = ok (record default_order_book {
  market = market_key;
  bump = bump;
  next_seq = 0;
  best_bid = 0;
  best_ask = 0;
  event_read_cursor = 0;
  event_write_cursor = 0;
  twap_cursor = 0;
})

-- What the runtime and the two programs do to the account of the vault, in a state `A` of that account:
-- `minimum_balance` is `Rent::get()?.minimum_balance`, `create_account seeds lamports space owner` and
-- `initialize_account3 seeds mint authority` are the calls, signed for the PDA with the seeds.
pub record VaultCalls {ℓ} (A : Type ℓ) : Type ℓ where
  pub data_is_empty : A → Bool
  pub minimum_balance : ℕ → Result ℕ
  pub token_account_len : ℕ
  pub token_program : ℕ
  pub create_account : List (List ℕ) → ℕ → ℕ → ℕ → A → Result A
  pub initialize_account3 : List (List ℕ) → ℕ → ℕ → A → Result A

-- The vault becomes its own authority.
unfoldable pub initialize_collateral_vault {ℓ} :
    {A : Type ℓ} → VaultCalls A → A → ℕ → ℕ → ℕ → ℕ → Result A
initialize_collateral_vault calls vault vault_key bump mint_key mint_decimals = do
  require (calls.data_is_empty vault) FructusError.vault_already_initialized
  require (mint_decimals == usdc_decimals) FructusError.invalid_mint
  let seeds = vault_seed ∷ (bump ∷ []) ∷ []
  lamports ← calls.minimum_balance calls.token_account_len
  created ← calls.create_account seeds lamports calls.token_account_len calls.token_program vault
  calls.initialize_account3 seeds mint_key vault_key created

-- The vault is initialized once: where the token program leaves data in an account that it initializes, an
-- `initialize_collateral_vault` that goes through was on an empty vault with a mint of six decimals, and a
-- second one, whatever the mint, fails and changes nothing.
pub initialize_collateral_vault_once {ℓ} :
    {A : Type ℓ} (calls : VaultCalls A) (vault : A) (vault_key bump mint_key mint_decimals : ℕ)
    {vault' : A}
    → ((seeds : List (List ℕ)) (mint authority : ℕ) (a b : A)
        → calls.initialize_account3 seeds mint authority a ≡ ok b
        → calls.data_is_empty b ≡ false)
    → initialize_collateral_vault calls vault vault_key bump mint_key mint_decimals ≡ ok vault'
    → (calls.data_is_empty vault ≡ true)
      × (mint_decimals ≡ usdc_decimals)
      × ((bump' mint_key' mint_decimals' : ℕ)
          → initialize_collateral_vault calls vault' vault_key bump' mint_key' mint_decimals'
            ≡ err (Error.custom FructusError.vault_already_initialized))
unfolding initialize_collateral_vault
initialize_collateral_vault_once calls vault vault_key bump mint_key mint_decimals {vault'} leaves
      e =
    let seeds : List (List ℕ) = vault_seed ∷ (bump ∷ []) ∷ [] in
    let (h1, e1) =
      require-eq-ok (calls.data_is_empty vault) FructusError.vault_already_initialized _ e in
    let (h2, e2) = require-eq-ok (mint_decimals == usdc_decimals) FructusError.invalid_mint _ e1 in
    let (lamports, h3, e3) = >>=-eq-ok (calls.minimum_balance calls.token_account_len) _ e2 in
    let (created, h4, e4) =
      >>=-eq-ok
        (calls.create_account seeds lamports calls.token_account_len calls.token_program vault) _
        e3 in
    let full : calls.data_is_empty vault' ≡ false =
      leaves seeds mint_key vault_key created vault' e4 in
    (h1, ground (arith, h2), λ b m d. rw full refl)
