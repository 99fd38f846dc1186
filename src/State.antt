-- ===== src/State.antt =====
-- programs/fructus/src/state.rs: the accounts and their parameter checks. A public key is a number
-- (its 32 bytes read as one), the zero key is 0; padding bytes are left out. The 16 raw bytes of `Observation.cumulative_mid` stand for the `u128` that they encode.
use fructus.Base.{
  ℕ, Bool, ◌&&◌, List, [], ◌∷◌, ◌++◌, ltb, leb, replicate, saturating_sub, zero, suc, ◌/◌, ◌%◌,
}
use fructus.Int.{ℤ}
use fructus.Errors.{Result, FructusError, require}
use fructus.Constants.{
  max_apy, funding_k_min, funding_k_max, max_funding_max, max_margin_bps, max_orders_per_side,
  event_queue_len, twap_observations,
}

pub record YieldOracle : Type 0 where
  pub apy : ℕ
  pub version : ℕ
  pub last_update_slot : ℕ
  pub publisher : ℕ
  pub authority : ℕ
  pub stale_after_slots : ℕ
  pub bump : ℕ

pub record PerpMarket : Type 0 where
  pub index_source : ℕ
  pub collateral_mint : ℕ
  pub funding_k : ℕ
  pub max_funding : ℕ
  pub funding_epoch_slots : ℕ
  pub initial_margin_bps : ℕ
  pub maintenance_margin_bps : ℕ
  pub authority : ℕ
  pub vault : ℕ
  pub funding_epoch : ℕ
  pub index_n : ℕ
  pub index_d : ℕ
  pub funding_accumulator : ℤ
  pub pnl_pool : ℕ
  pub bump : ℕ

-- A slot of a side of the book; `active` is 0 in an empty slot.
pub record Order : Type 0 where
  pub owner : ℕ
  pub price : ℕ
  pub size : ℕ
  pub seq : ℕ
  pub active : ℕ

pub record OutEvent : Type 0 where
  pub seq : ℕ
  pub price : ℕ
  pub size : ℕ
  pub owner : ℕ
  pub counterparty : ℕ
  pub entry_total_lamports : ℕ
  pub entry_pool_token_supply : ℕ
  pub settled : ℕ
  pub kind : ℕ
  pub side : ℕ

pub record Observation : Type 0 where
  pub slot : ℕ
  pub mid : ℕ
  pub cumulative_mid : ℕ

pub record OrderBook : Type 0 where
  pub next_seq : ℕ
  pub best_bid : ℕ
  pub best_ask : ℕ
  pub event_read_cursor : ℕ
  pub event_write_cursor : ℕ
  pub twap_cursor : ℕ
  pub market : ℕ
  pub bump : ℕ
  pub bids : List Order
  pub asks : List Order
  pub events : List OutEvent
  pub observations : List Observation

abbrev pub empty_order : Order
empty_order = record { owner = 0; price = 0; size = 0; seq = 0; active = 0 }

abbrev pub empty_event : OutEvent
empty_event = record {
  seq = 0;
  price = 0;
  size = 0;
  owner = 0;
  counterparty = 0;
  entry_total_lamports = 0;
  entry_pool_token_supply = 0;
  settled = 0;
  kind = 0;
  side = 0;
}

abbrev pub empty_observation : Observation
empty_observation = record { slot = 0; mid = 0; cumulative_mid = 0 }

-- `OrderBook::default()`, all zero: what `initialize_order_book` starts from.
abbrev pub default_order_book : OrderBook
default_order_book = record {
  next_seq = 0;
  best_bid = 0;
  best_ask = 0;
  event_read_cursor = 0;
  event_write_cursor = 0;
  twap_cursor = 0;
  market = 0;
  bump = 0;
  bids = replicate max_orders_per_side empty_order;
  asks = replicate max_orders_per_side empty_order;
  events = replicate event_queue_len empty_event;
  observations = replicate twap_observations empty_observation;
}

pub record UserCollateral : Type 0 where
  pub deposited : ℕ
  pub reserved : ℕ
  pub claimable : ℕ
  pub bump : ℕ

pub record Position : Type 0 where
  pub market : ℕ
  pub owner : ℕ
  pub side : ℕ
  pub notional : ℕ
  pub entry_n_sum : ℕ
  pub entry_d_sum : ℕ
  pub collateral : ℕ
  pub last_funding_epoch : ℕ
  pub closed_notional : ℕ
  pub closed_entry_n_sum : ℕ
  pub closed_entry_d_sum : ℕ
  pub open_slot : ℕ
  pub bump : ℕ

unfoldable pub is_stale : ℕ → ℕ → ℕ → Bool
is_stale last_update_slot stale_after_slots current_slot =
    leb stale_after_slots (saturating_sub current_slot last_update_slot)

unfoldable pub apy_in_bounds : ℕ → Bool
apy_in_bounds apy = leb apy max_apy

unfoldable pub funding_k_in_bounds : ℕ → Bool
funding_k_in_bounds k = leb funding_k_min k && leb k funding_k_max

unfoldable pub max_funding_in_bounds : ℕ → Bool
max_funding_in_bounds m = leb m max_funding_max

unfoldable pub initial_margin_in_bounds : ℕ → Bool
initial_margin_in_bounds im = ltb 0 im && leb im max_margin_bps

unfoldable pub maintenance_margin_in_bounds : ℕ → ℕ → Bool
maintenance_margin_in_bounds im mm = ltb 0 mm && leb mm im

unfoldable pub validate_version : ℕ → ℕ → Result (Unit {0})
validate_version current next = require (ltb current next) FructusError.stale_version

-- `to_le_bytes` of a word of `n` bytes.
unfoldable pub to_le_bytes : ℕ → ℕ → List ℕ
to_le_bytes zero x = []
to_le_bytes (suc n) x = x % 256 ∷ to_le_bytes n (x / 256)

-- The bytes of "fructus::update_apy".
abbrev pub update_domain_separator : List ℕ
update_domain_separator =
    b'f' ∷ b'r' ∷ b'u' ∷ b'c' ∷ b't' ∷ b'u' ∷ b's' ∷ b':' ∷ b':' ∷ b'u' ∷ b'p' ∷ b'd' ∷ b'a' ∷ b't'
    ∷ b'e' ∷ b'_' ∷ b'a' ∷ b'p' ∷ b'y' ∷ []

-- `sha256` is the hash of the `sha2` crate; `oracle` is the 32 bytes of the oracle's address.
unfoldable pub update_message : (List ℕ → List ℕ) → List ℕ → ℕ → ℕ → List ℕ
unfolding to_le_bytes
update_message sha256 oracle apy version =
    sha256 (update_domain_separator ++ (oracle ++ (to_le_bytes 8 apy ++ to_le_bytes 8 version)))
