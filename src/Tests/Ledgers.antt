-- ===== src/Tests/Ledgers.antt =====
-- Collateral, settlement and liquidation amounts at concrete inputs.
use fructus.Base.{ℕ, ◌+◌, ◌*◌, ◌≤◌, ◌<◌, ◌≡◌, refl, ◌&&◌, ◌⊎◌, none, some, arith, ltb}
use fructus.Int.{pos, negsuc, neg, pos_part, neg_part}
use fructus.Settlement.{settle_signed, apply_liquidation_loss}
use fructus.Settlement.Conservation.{
  Entitled, settle_signed_conserves, apply_liquidation_loss_bounds,
}
use fructus.Positions.{PositionSide, pnl, margin_required}
use fructus.Positions.Pnl.{pnl_opposite}
use fructus.Positions.Margin.{margin_of, margin_required_least}
use fructus.Liquidation.{liquidatable}
use fructus.Liquidation.Health.{liquidatable_threshold}

-- A gain of 50 against a pool of 20: 20 is paid and 30 is pending.
gain_on_short_pool : settle_signed 100 5 20 (pos 50) ≡ some (120, 35, 0)
unfolding settle_signed
gain_on_short_pool = refl

settle_signed_conserves_example : (120 + 0 ≡ 100 + 20) × Entitled (pos 50) 100 5 (120, 35, 0)
settle_signed_conserves_example =
    settle_signed_conserves 100 5 20 (pos 50) {r = (120, 35, 0)} (omega arith) gain_on_short_pool

apply_liquidation_loss_bounds_example :
    ((100 < 40 + 5) × (apply_liquidation_loss 100 40 80 5 ≡ none))
    ⊎ ((r : ℕ × ℕ) × (apply_liquidation_loss 100 40 80 5 ≡ some r)
        × (r.0 + r.1 ≡ 100)
        × (r.1 ≤ 80)
        × (40 + 5 ≤ r.0)
        × ((r.1 ≡ 80) ⊎ (r.0 ≡ 40 + 5)))
apply_liquidation_loss_bounds_example = apply_liquidation_loss_bounds 100 40 80 5

margin_required_least_example :
    (m : ℕ) × (margin_required 1_001 1_000 ≡ some m)
    × (1_001 * 1_000 ≤ m * 10_000)
    × (m * 10_000 < 1_001 * 1_000 + 10_000)
    × (m ≤ 1_001)
margin_required_least_example = margin_required_least 1_001 1_000 (omega arith) (omega arith)

-- A long of 1_000 that fell from 100/100 to 95/100 lost 50.
fell : pnl 100 100 95 100 1_000 PositionSide.long ≡ some (negsuc 49)
unfolding pnl
fell = refl

pnl_opposite_example : (pnl 100 100 95 100 1_000 PositionSide.short ≡ some (pos 50)) × (50 ≤ 1_000)
unfolding neg
pnl_opposite_example = pnl_opposite 100 100 95 100 1_000 {z = negsuc 49} fell

liquidatable_threshold_example :
    liquidatable 100 (negsuc 50) 1_000 500
    ≡ some (
        ltb 0 1_000
        && ltb (100 + pos_part (negsuc 50)) (margin_of 1_000 500 + neg_part (negsuc 50)))
liquidatable_threshold_example =
    liquidatable_threshold 100 (negsuc 50) 1_000 500 (omega arith) (omega arith) (omega arith)
      (omega arith)
