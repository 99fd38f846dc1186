-- ===== src/Exchange.antt =====
-- programs/fructus/src/exchange.rs and `read_stake_pool` of lib.rs: the exchange rate of a stake pool,
-- read from the bytes of its account, and the yield between two rates. A byte is a number below 256.
pub mod RoundTrip
use fructus.Base.{
  ℕ, ◌+◌, ◌-◌, ◌*◌, Bool, false, Option, none, some, List, [], ◌∷◌, ltb, leb, ◌==◌, if◌then◌else◌,
  length, get_elem?, take, drop, checked_add, checked_mul, checked_div, try_from, u64_size,
  u128_size, not,
}
use fructus.Base.Options.{◌>>=◌, ◌>>◌, refuse}
use fructus.Errors.{Result, ok, err, FructusError, require, ok_or}
use fructus.Errors
use fructus.Constants.{apy_scale}

abbrev pub account_type_offset : ℕ
account_type_offset = 0

abbrev pub account_type_stake_pool : ℕ
account_type_stake_pool = 1

abbrev pub total_lamports_offset : ℕ
total_lamports_offset = 258

abbrev pub pool_token_supply_offset : ℕ
pool_token_supply_offset = 266

pub record ExchangeRate : Type 0 where
  pub total_lamports : ℕ
  pub pool_token_supply : ℕ

-- `data.get(from..from + n)`
unfoldable pub get_range : List ℕ → ℕ → ℕ → Option (List ℕ)
get_range bytes from n =
    if leb (from + n) (length bytes) then some (take n (drop from bytes)) else none

-- `from_le_bytes`
unfoldable pub from_le_bytes : List ℕ → ℕ
from_le_bytes [] = 0
from_le_bytes (b ∷ bs) = b + 256 * from_le_bytes bs

unfoldable pub read_u64_le : List ℕ → ℕ → Option ℕ
unfolding get_range from_le_bytes
read_u64_le bytes offset = do
  end ← checked_add u64_size offset 8
  range ← get_range bytes offset 8
  some (from_le_bytes range)

-- The first byte is the discriminator of a stake pool.
abbrev pub has_account_type : Option ℕ → Bool
has_account_type none = false
has_account_type (some b) = b == account_type_stake_pool

unfoldable pub read : List ℕ → Option ExchangeRate
unfolding read_u64_le
read bytes = do
  refuse (not (has_account_type (get_elem? bytes account_type_offset)))
  total_lamports ← read_u64_le bytes total_lamports_offset
  pool_token_supply ← read_u64_le bytes pool_token_supply_offset
  refuse (pool_token_supply == 0)
  some (record { total_lamports = total_lamports; pool_token_supply = pool_token_supply })

unfoldable pub realized_yield : ExchangeRate → ExchangeRate → Option ℕ
realized_yield from to = do
  refuse (to.total_lamports == 0)
  let a = to.total_lamports * from.pool_token_supply
  let b = from.total_lamports * to.pool_token_supply
  refuse (b == 0)
  let grown = do
    product ← checked_mul u128_size (a - b) apy_scale
    scaled ← checked_div product b
    try_from u64_size scaled
  if ltb a b then some 0 else grown

unfoldable pub annualize : ℕ → ℕ → ℕ → Option ℕ
annualize yield_scaled period_slots slots_per_year = do
  refuse (period_slots == 0)
  product ← checked_mul u128_size yield_scaled slots_per_year
  out ← checked_div product period_slots
  try_from u64_size out

-- An account that an instruction is given: its owner program and its bytes.
pub record AccountInfo : Type 0 where
  pub owner : ℕ
  pub bytes : List ℕ

-- The bytes of `STAKE_POOL_PROGRAM_ID`, the first one the lowest.
unfoldable pub stake_pool_program_id : ℕ
unfolding from_le_bytes
stake_pool_program_id = from_le_bytes (
    6 ∷ 129 ∷ 78 ∷ 212 ∷ 202 ∷ 246 ∷ 138 ∷ 23 ∷ 70 ∷ 114 ∷ 253 ∷ 172 ∷ 134 ∷ 3 ∷ 26 ∷ 99 ∷ 232 ∷ 78
    ∷ 161 ∷ 94 ∷ 250 ∷ 29 ∷ 68 ∷ 183 ∷ 34 ∷ 147 ∷ 246 ∷ 219 ∷ 219 ∷ 0 ∷ 22 ∷ 80 ∷ [])

unfoldable pub read_stake_pool : AccountInfo → Result ExchangeRate
unfolding read
read_stake_pool account =
    Errors.◌>>◌ (require (account.owner == stake_pool_program_id) FructusError.invalid_stake_pool)
      (ok_or (read account.bytes) FructusError.invalid_stake_pool)
