-- ===== src/Funding.antt =====
-- programs/fructus/src/funding.rs: premium, clamped funding rate, payment and epochs, in `i128`.
pub mod Rate
use fructus.Base.{ℕ, ◌/◌, ◌==◌, if◌then◌else◌}
use fructus.Int.{ℤ, pos, negsuc, sub_ℕ, ◌*ℤ◌, quot, saturating_i128, clamp_sym}
use fructus.Constants.{apy_scale}
use fructus.Positions.{PositionSide}

pub data SideFlow : Type 0 where
  long short : SideFlow

unfoldable pub multiplier : SideFlow → ℤ
multiplier SideFlow.long = negsuc 0
multiplier SideFlow.short = pos 1

unfoldable pub from_position_side : PositionSide → SideFlow
from_position_side PositionSide.long = SideFlow.long
from_position_side PositionSide.short = SideFlow.short

unfoldable pub premium : ℕ → ℕ → ℤ
premium mark index = sub_ℕ mark index

unfoldable pub funding_rate : ℤ → ℕ → ℕ → ℤ
unfolding ◌*ℤ◌ quot clamp_sym
funding_rate prem funding_k max_funding =
    let raw = saturating_i128 (pos funding_k *ℤ prem) in
    clamp_sym max_funding (quot raw (pos apy_scale))

unfoldable pub funding_payment : ℕ → ℤ → ℕ → SideFlow → ℤ
unfolding ◌*ℤ◌ quot multiplier
funding_payment notional rate epochs side =
    let scaled = quot (saturating_i128 (pos notional *ℤ rate)) (pos apy_scale) in
    saturating_i128 (saturating_i128 (scaled *ℤ pos epochs) *ℤ multiplier side)

unfoldable pub funding_epoch : ℕ → ℕ → ℕ
funding_epoch slot epoch_slots = if epoch_slots == 0 then 0 else slot / epoch_slots
