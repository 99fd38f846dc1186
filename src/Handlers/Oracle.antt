-- ===== src/Handlers/Oracle.antt =====
-- programs/fructus/src/lib.rs: `initialize`, `initialize_market`, `update_apy`, `set_stale_window`,
-- `set_publisher` and `read_exchange_rate`.
use fructus.Base.{ℕ, ◌∷◌, [], List}
use fructus.Int.{pos}
use fructus.Errors.{Result, ok, FructusError, require, ◌>>=◌, ◌>>◌}
use fructus.Exchange.{AccountInfo, ExchangeRate, read_stake_pool}
use fructus.State.{
  YieldOracle, PerpMarket, apy_in_bounds, funding_k_in_bounds, max_funding_in_bounds,
  initial_margin_in_bounds, maintenance_margin_in_bounds, validate_version, update_message,
}
use fructus.Ed25519.{Instruction, verify_publisher_signature}
use fructus.Handlers.Runtime.{Runtime, vault_seed}

unfoldable pub initialize : ℕ → ℕ → ℕ → ℕ → ℕ → ℕ → Result YieldOracle
initialize authority now_slot bump publisher stale_after_slots initial_apy = do
  require (apy_in_bounds initial_apy) FructusError.apy_too_high
  ok (record {
    apy = initial_apy;
    version = 0;
    last_update_slot = now_slot;
    publisher = publisher;
    authority = authority;
    stale_after_slots = stale_after_slots;
    bump = bump;
  })

-- The arguments of `initialize_market`.
pub record MarketParams : Type 0 where
  pub collateral_mint : ℕ
  pub funding_k : ℕ
  pub max_funding : ℕ
  pub funding_epoch_slots : ℕ
  pub initial_margin_bps : ℕ
  pub maintenance_margin_bps : ℕ

-- `source_key` is the key of the account `index_source`.
unfoldable pub initialize_market :
    Runtime → ℕ → ℕ → ℕ → AccountInfo → MarketParams → Result PerpMarket
initialize_market rt authority bump source_key index_source p = do
  require (funding_k_in_bounds p.funding_k) FructusError.invalid_funding_k
  require (max_funding_in_bounds p.max_funding) FructusError.invalid_max_funding
  require (initial_margin_in_bounds p.initial_margin_bps) FructusError.invalid_initial_margin
  require (maintenance_margin_in_bounds p.initial_margin_bps p.maintenance_margin_bps)
      FructusError.invalid_maintenance_margin
  rate ← read_stake_pool index_source
  ok (record {
    index_source = source_key;
    collateral_mint = p.collateral_mint;
    funding_k = p.funding_k;
    max_funding = p.max_funding;
    funding_epoch_slots = p.funding_epoch_slots;
    initial_margin_bps = p.initial_margin_bps;
    maintenance_margin_bps = p.maintenance_margin_bps;
    authority = authority;
    vault = (rt.find_program_address (vault_seed ∷ [])).0;
    funding_epoch = 0;
    index_n = 0;
    index_d = 0;
    funding_accumulator = pos 0;
    pnl_pool = 0;
    bump = bump;
  })

-- What `update_apy` uses of its surroundings: the hash of the `sha2` crate, the id of the runtime's
-- ed25519 program, and the bytes of a key.
pub record Verifier : Type 0 where
  pub sha256 : List ℕ → List ℕ
  pub ed25519_program : ℕ
  pub to_bytes : ℕ → List ℕ

unfoldable pub update_apy :
    Verifier → YieldOracle → ℕ → List Instruction → ℕ → ℕ → ℕ → Result YieldOracle
update_apy env oracle oracle_key instructions now_slot apy version = do
  require (apy_in_bounds apy) FructusError.apy_too_high
  verify_publisher_signature env.ed25519_program instructions (env.to_bytes oracle.publisher)
      (update_message env.sha256 (env.to_bytes oracle_key) apy version)
  validate_version oracle.version version
  ok (record oracle { apy = apy; version = version; last_update_slot = now_slot })

unfoldable pub set_stale_window : YieldOracle → ℕ → Result YieldOracle
set_stale_window oracle new_stale_after_slots =
    ok (record oracle { stale_after_slots = new_stale_after_slots })

unfoldable pub set_publisher : YieldOracle → ℕ → Result YieldOracle
set_publisher oracle new_publisher = ok (record oracle { publisher = new_publisher })

unfoldable pub read_exchange_rate : AccountInfo → Result ExchangeRate
read_exchange_rate stake_pool = read_stake_pool stake_pool
