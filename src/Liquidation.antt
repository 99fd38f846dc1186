-- ===== src/Liquidation.antt =====
-- programs/fructus/src/liquidation.rs: the health of a position and the liquidation transition.
pub mod Health
use fructus.Base.{
  ℕ, ◌+◌, ◌-◌, ◌/◌, Bool, true, false, ◌||◌, Option, none, some, ◌⊎◌, inl, inr, ltb, ◌==◌,
  if◌then◌else◌, checked_add, checked_mul, try_from, min_of, u64_size, u128_size,
}
use fructus.Base.Options.{◌>>=◌}
use fructus.Int.{ℤ, pos, ◌+ℤ◌, ltb_ℤ, saturating_i128}
use fructus.Errors.{FructusError}
use fructus.Positions.{margin_required}

pub data LiquidateError : Type 0 where
  invalid_amount overflow : LiquidateError

unfoldable pub to_fructus_error : LiquidateError → FructusError
to_fructus_error invalid_amount = FructusError.invalid_size
to_fructus_error overflow = FructusError.arithmetic_overflow

unfoldable pub equity : ℕ → ℤ → ℤ
unfolding ◌+ℤ◌
equity collateral unrealized_pnl = saturating_i128 (pos collateral +ℤ unrealized_pnl)

unfoldable pub maintenance_margin : ℕ → ℕ → Option ℕ
maintenance_margin notional maintenance_bps = margin_required notional maintenance_bps

unfoldable pub liquidatable : ℕ → ℤ → ℕ → ℕ → Option Bool
unfolding maintenance_margin equity
liquidatable collateral unrealized_pnl notional maintenance_bps =
    if notional == 0
    then some false
    else (maintenance_margin notional maintenance_bps >>= λ maintenance.
        some (ltb_ℤ (equity collateral unrealized_pnl) (pos maintenance)))

unfoldable pub liquidation_penalty : ℕ → ℕ → Option ℕ
liquidation_penalty collateral penalty_bps = do
  product ← checked_mul u128_size collateral penalty_bps
  exact ← checked_add u128_size product 9_999
  try_from u64_size (exact / 10_000)

-- `o.ok_or(LiquidateError::Overflow)`
abbrev or_overflow : Option ℕ → LiquidateError ⊎ ℕ
or_overflow none = inl overflow
or_overflow (some n) = inr n

-- `?` on a result with `LiquidateError`.
abbrev and_then {ℓ} :
    {B : Type ℓ} → LiquidateError ⊎ ℕ → (ℕ → LiquidateError ⊎ B) → LiquidateError ⊎ B
and_then (inl e) f = inl e
and_then (inr n) f = f n

unfoldable pub apply_liquidation : ℕ → ℕ → ℕ → ℕ → ℕ → ℕ → LiquidateError ⊎ (ℕ × ℕ)
unfolding liquidation_penalty
apply_liquidation position_collateral notional amount initial_margin_bps maintenance_bps
      penalty_bps =
    if amount == 0 || ltb notional amount
    then inl invalid_amount
    else and_then (or_overflow (margin_required (notional - amount) initial_margin_bps)) λ margin.
      let remaining = min_of margin position_collateral in
      let released = position_collateral - remaining in
      and_then (or_overflow (liquidation_penalty released penalty_bps))
        λ reward. inr (remaining, reward)
