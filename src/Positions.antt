-- ===== src/Positions.antt =====
-- programs/fructus/src/positions.rs: margin, entry sums and signed PnL. Sums are `u128` and PnL is
-- `i128`; amounts, rates' components and results are `u64`.
pub mod Margin
pub mod Pnl
use fructus.Base.{
  ℕ, zero, suc, ◌+◌, ◌-◌, ◌*◌, ◌/◌, ◌%◌, ◌^◌, Bool, true, false, ◌||◌, Option, none, some, ltb,
  ◌==◌, if◌then◌else◌, checked_add, checked_mul, try_from, min_of, max_of, u64_size, u128_size,
}
use fructus.Base.Options.{◌>>=◌, ◌>>◌, refuse}
use fructus.Int.{ℤ, pos, neg, sub_ℕ, ◌*ℤ◌, abs, ltb_ℤ, quot, checked_i128, checked_quot}
use fructus.Errors.{Result, ok, err, Error, FructusError, require}
use fructus.Errors
use fructus.Constants.{apy_scale, side_bid, side_ask}

pub data PositionSide : Type 0 where
  long short : PositionSide

unfoldable pub margin_required : ℕ → ℕ → Option ℕ
margin_required notional initial_margin_bps = do
  product ← checked_mul u128_size notional initial_margin_bps
  exact ← checked_add u128_size product 9_999
  try_from u64_size (exact / 10_000)

unfoldable pub accumulate_entry : ℕ → ℕ → ℕ → ℕ → ℕ → Option (ℕ × ℕ)
accumulate_entry cur_n_sum cur_d_sum add_n add_d add_w = do
  n ← checked_mul u128_size add_n add_w
  d ← checked_mul u128_size add_d add_w
  n_sum ← checked_add u128_size cur_n_sum n
  d_sum ← checked_add u128_size cur_d_sum d
  some (n_sum, d_sum)

-- The number of binary digits, `u128::BITS - x.leading_zeros()`; 128 rounds are enough for a `u128`.
bit_length_from : ℕ → ℕ → ℕ
bit_length_from zero x = 0
bit_length_from (suc rounds) x =
    let rest = suc (bit_length_from rounds (x / 2)) in if x == 0 then 0 else rest

unfoldable pub bit_length : ℕ → ℕ
unfolding bit_length_from
bit_length x = bit_length_from 128 x

unfoldable pub normalize_sums : ℕ → ℕ → ℕ × ℕ
unfolding bit_length
normalize_sums entry_n_sum entry_d_sum =
    let shift = bit_length (max_of entry_n_sum entry_d_sum) - 45 in
    (entry_n_sum / 2 ^ shift % u64_size, entry_d_sum / 2 ^ shift % u64_size)

unfoldable pub signed_yield_change : ℕ → ℕ → ℕ → ℕ → Option ℤ
unfolding normalize_sums ◌*ℤ◌ quot
signed_yield_change entry_n_sum entry_d_sum cur_n cur_d = do
  let n_e = (normalize_sums entry_n_sum entry_d_sum).0
  let d_e = (normalize_sums entry_n_sum entry_d_sum).1
  refuse (n_e == 0 || d_e == 0 || cur_n == 0 || cur_d == 0)
  cur_x ← checked_mul u128_size cur_n d_e
  entry_x ← checked_mul u128_size n_e cur_d
  scaled ← checked_i128 (sub_ℕ cur_x entry_x *ℤ pos apy_scale)
  some (quot scaled (pos entry_x))

abbrev pub signed_by : PositionSide → ℤ → Option ℤ
signed_by PositionSide.long scaled = some scaled
signed_by PositionSide.short scaled = checked_i128 (neg scaled)

unfoldable pub pnl : ℕ → ℕ → ℕ → ℕ → ℕ → PositionSide → Option ℤ
unfolding signed_yield_change ◌*ℤ◌ quot neg
pnl entry_n_sum entry_d_sum cur_n cur_d notional side = do
  change ← signed_yield_change entry_n_sum entry_d_sum cur_n cur_d
  product ← checked_i128 (pos notional *ℤ change)
  scaled ← checked_quot product (pos apy_scale)
  signed_by side scaled

unfoldable pub validate_open_args : ℕ → ℕ → Result (Unit {0})
validate_open_args side size =
    if side == side_bid || side == side_ask
    then require (ltb 0 size) FructusError.invalid_size
    else err Error.invalid_instruction_data

unfoldable pub from_side_u8 : ℕ → Option PositionSide
from_side_u8 side =
    if side == side_bid
    then some PositionSide.long
    else if side == side_ask
    then some PositionSide.short
    else none

unfoldable pub apply_pnl : ℕ → ℤ → Option ℕ
apply_pnl deposited z =
    if ltb_ℤ z (pos 0)
    then some (deposited - min_of (abs z) deposited)
    else (checked_add u128_size deposited (abs z) >>= λ want. try_from u64_size want)

-- S, the running sum of closed amounts over their rates, as a fraction.
abbrev closed_over_rates : ℕ → ℕ → ℕ → ℕ × ℕ
closed_over_rates cur_n_sum cur_d_sum cur_notional =
    if cur_notional == 0 then (0, 1) else (cur_d_sum, cur_n_sum / cur_notional)

unfoldable pub accumulate_closed_entry : ℕ → ℕ → ℕ → ℕ → ℕ → ℕ → Option (ℕ × ℕ)
accumulate_closed_entry cur_n_sum cur_d_sum cur_notional add_n add_d q = do
  let s_num = (closed_over_rates cur_n_sum cur_d_sum cur_notional).0
  let s_den = (closed_over_rates cur_n_sum cur_d_sum cur_notional).1
  s_den_new ← checked_mul u128_size s_den add_n
  scaled ← checked_mul u128_size s_num add_n
  closed ← checked_mul u128_size q add_d
  added ← checked_mul u128_size closed s_den
  s_num_new ← checked_add u128_size scaled added
  new_notional ← checked_add u128_size cur_notional q
  n_new ← checked_mul u128_size new_notional s_den_new
  some (n_new, s_num_new)
