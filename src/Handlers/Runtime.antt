-- ===== src/Handlers/Runtime.antt =====
-- What the handlers use of the runtime: PDA derivation and the token program, and the PDA checks of
-- lib.rs. The accounts of a position and of a ledger, as a handler finds them.
use fructus.Base.{ℕ, Bool, true, false, List, [], ◌∷◌, ◌==◌, Option, none, some}
use fructus.Errors.{Result, ok, err, Error, FructusError, ◌>>◌}
use fructus.State.{Position, UserCollateral, OutEvent}

-- `Pubkey::find_program_address(seeds, &crate::ID)`, a PDA and its bump, and `Pubkey::as_ref`.
pub record Runtime : Type 0 where
  pub find_program_address : List (List ℕ) → ℕ × ℕ
  pub as_ref : ℕ → List ℕ

-- The bytes of "position", "user_collateral" and "vault".
abbrev pub position_seed : List ℕ
position_seed = b'p' ∷ b'o' ∷ b's' ∷ b'i' ∷ b't' ∷ b'i' ∷ b'o' ∷ b'n' ∷ []

abbrev pub user_collateral_seed : List ℕ
user_collateral_seed =
    b'u' ∷ b's' ∷ b'e' ∷ b'r' ∷ b'_' ∷ b'c' ∷ b'o' ∷ b'l' ∷ b'l' ∷ b'a' ∷ b't' ∷ b'e' ∷ b'r' ∷ b'a'
    ∷ b'l' ∷ []

abbrev pub vault_seed : List ℕ
vault_seed = b'v' ∷ b'a' ∷ b'u' ∷ b'l' ∷ b't' ∷ []

-- The bytes of "yield_oracle", "perp_market" and "order_book".
abbrev pub oracle_seed : List ℕ
oracle_seed = b'y' ∷ b'i' ∷ b'e' ∷ b'l' ∷ b'd' ∷ b'_' ∷ b'o' ∷ b'r' ∷ b'a' ∷ b'c' ∷ b'l' ∷ b'e' ∷ []

abbrev pub perp_market_seed : List ℕ
perp_market_seed = b'p' ∷ b'e' ∷ b'r' ∷ b'p' ∷ b'_' ∷ b'm' ∷ b'a' ∷ b'r' ∷ b'k' ∷ b'e' ∷ b't' ∷ []

abbrev pub order_book_seed : List ℕ
order_book_seed = b'o' ∷ b'r' ∷ b'd' ∷ b'e' ∷ b'r' ∷ b'_' ∷ b'b' ∷ b'o' ∷ b'o' ∷ b'k' ∷ []

abbrev pub position_pda : Runtime → ℕ → ℕ → ℕ → ℕ × ℕ
position_pda rt market_key owner side =
    rt.find_program_address
      (position_seed ∷ rt.as_ref market_key ∷ rt.as_ref owner ∷ (side ∷ []) ∷ [])

abbrev pub collateral_pda : Runtime → ℕ → ℕ → ℕ × ℕ
collateral_pda rt market_key owner =
    rt.find_program_address (user_collateral_seed ∷ rt.as_ref market_key ∷ rt.as_ref owner ∷ [])

abbrev pub require_account : Bool → Result (Unit {0})
require_account b = elim b [ true ↦ ok tt | false ↦ err Error.invalid_account_data ]

unfoldable pub verify_maker_accounts : Runtime → ℕ → OutEvent → ℕ → ℕ → Result ℕ
verify_maker_accounts rt market_key event position_key collateral_key = do
  require_account ((position_pda rt market_key event.owner event.side).0 == position_key)
  require_account ((collateral_pda rt market_key event.owner).0 == collateral_key)
  ok (position_pda rt market_key event.owner event.side).1

unfoldable pub verify_collateral_pda : Runtime → ℕ → ℕ → ℕ → Result (Unit {0})
verify_collateral_pda rt market_key owner collateral_key =
    require_account ((collateral_pda rt market_key owner).0 == collateral_key)

-- The account at a position's PDA: never created (no data, no lamports, owned by the system program),
-- owned by another program (with data or without), or the program's own.
pub data PdaAccount : Type 0 where
  pristine : PdaAccount
  foreign : Bool → PdaAccount
  owned : Position → PdaAccount

abbrev pub zero_position : Position
zero_position = record {
  market = 0;
  owner = 0;
  side = 0;
  notional = 0;
  entry_n_sum = 0;
  entry_d_sum = 0;
  collateral = 0;
  last_funding_epoch = 0;
  closed_notional = 0;
  closed_entry_n_sum = 0;
  closed_entry_d_sum = 0;
  open_slot = 0;
  bump = 0;
}

-- The create gate of `open_position` and `settle_fill`.
unfoldable pub create_or_load : PdaAccount → Result Position
create_or_load pristine = ok zero_position
create_or_load (foreign has_data) = err (Error.custom FructusError.position_pda_squatted)
create_or_load (owned p) = ok p

-- A ledger that must exist; `none` is an account with no data.
abbrev pub existing_ledger : Option UserCollateral → Result UserCollateral
existing_ledger none = err (Error.custom FructusError.insufficient_free_collateral)
existing_ledger (some ledger) = ok ledger
