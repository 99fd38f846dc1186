-- ===== src/Constants.antt =====
-- constants.rs and the constants of lib.rs: the numbers that the logic computes with.
use fructus.Base.{ℕ}

abbrev pub apy_scale : ℕ
apy_scale = 1_000_000

abbrev pub max_apy : ℕ
max_apy = apy_scale

abbrev pub funding_k_min : ℕ
funding_k_min = 1

abbrev pub funding_k_max : ℕ
funding_k_max = apy_scale

abbrev pub max_funding_max : ℕ
max_funding_max = apy_scale

abbrev pub max_margin_bps : ℕ
max_margin_bps = 10_000

abbrev pub slots_per_year : ℕ
slots_per_year = 78_840_000

abbrev pub liquidation_penalty_bps : ℕ
liquidation_penalty_bps = 500

abbrev pub liquidation_twap_window : ℕ
liquidation_twap_window = 16

abbrev pub max_orders_per_side : ℕ
max_orders_per_side = 16

abbrev pub event_queue_len : ℕ
event_queue_len = 32

abbrev pub twap_observations : ℕ
twap_observations = 16

abbrev pub max_match_steps : ℕ
max_match_steps = 8

abbrev pub usdc_decimals : ℕ
usdc_decimals = 6

-- The bytes of `OutEvent.kind` and of the side encoding, and the batch of one `crank`.
abbrev pub event_kind_fill : ℕ
event_kind_fill = 0

abbrev pub event_kind_cancel : ℕ
event_kind_cancel = 1

abbrev pub event_kind_residual : ℕ
event_kind_residual = 2

abbrev pub side_bid : ℕ
side_bid = 0

abbrev pub side_ask : ℕ
side_ask = 1

abbrev pub crank_batch_len : ℕ
crank_batch_len = 8
