-- ===== src/Liquidation/Health.antt =====
-- programs/fructus/src/liquidation.rs: the strict health threshold, and the split of the collateral.
use fructus.Base.{
  ℕ, ◌+◌, ◌-◌, ◌*◌, ◌≤◌, ◌<◌, ◌≡◌, refl, ◌⊎◌, inl, inr, false, ◌&&◌, some, arith, ltb, u64_size,
  min_of,
}
use fructus.Int.{ℤ, pos, negsuc, ◌+ℤ◌, abs, pos_part, neg_part}
use fructus.Constants.{max_margin_bps}
use fructus.Positions.Margin.{margin_of, margin_of-le, margin_of_mono_bps, margin_required_eq}
use fructus.Liquidation.{invalid_amount, liquidatable, liquidation_penalty, apply_liquidation}

-- The penalty is the ceiling of its share, like a margin.
pub liquidation_penalty_eq :
    (collateral bps : ℕ)
    → collateral < u64_size
    → bps ≤ max_margin_bps
    → liquidation_penalty collateral bps ≡ some (margin_of collateral bps)
unfolding liquidation_penalty
liquidation_penalty_eq c b h k = ground (arith, mul_right)
  where
    mul_right : c * b ≤ c * 10_000
    mul_right = grind arith

-- A position is liquidatable exactly where it has a notional and its collateral plus the signed PnL is
-- strictly below the maintenance margin (the PnL's negative part moved to the other side); equality is
-- healthy, and so is a position with no notional, whatever its PnL. The answer is never `none`. Collateral and
-- notional are `u64`, the PnL is below 2 ^ 64 in magnitude and the ratio at most 100%.
pub liquidatable_threshold :
    (collateral : ℕ) (z : ℤ) (notional bps : ℕ)
    → collateral < u64_size
    → abs z < u64_size
    → notional < u64_size
    → bps ≤ max_margin_bps
    → liquidatable collateral z notional bps
      ≡ some (ltb 0 notional && ltb (collateral + pos_part z) (margin_of notional bps + neg_part z))
unfolding liquidatable ◌+ℤ◌
liquidatable_threshold c (pos g) n bps hc hz hn hb = ground (arith, margin_required_eq n bps hn hb)
liquidatable_threshold c (negsuc l) n bps hc hz hn hb =
    ground (arith, margin_required_eq n bps hn hb)

-- A position that holds its initial margin and has lost nothing is healthy, where the maintenance ratio
-- is at most the initial one.
pub liquidatable_initial :
    (notional gain initial_bps maintenance_bps : ℕ)
    → notional < u64_size
    → gain < u64_size
    → maintenance_bps ≤ initial_bps
    → initial_bps ≤ max_margin_bps
    → liquidatable (margin_of notional initial_bps) (pos gain) notional maintenance_bps ≡ some false
unfolding liquidatable ◌+ℤ◌
liquidatable_initial n g im mm hn hg le hb = ground (
  arith,
  margin_required_eq n mm hn (omega arith),
  margin_of_mono_bps n mm im le,
  margin_of-le n im hb,
)

-- A liquidation of none or of more than the notional is refused.
pub apply_liquidation_refused :
    (collateral notional amount im mm penalty : ℕ)
    → (amount ≡ 0) ⊎ (notional < amount)
    → apply_liquidation collateral notional amount im mm penalty ≡ inl invalid_amount
unfolding apply_liquidation
apply_liquidation_refused c n a im mm p (inl h) = ground arith
apply_liquidation_refused c n a im mm p (inr h) = ground arith

-- Any other liquidation, on `u64` amounts and ratios of at most 100%, succeeds. The position keeps the
-- margin of the notional that survives (or all it holds, if that is less), and the reward comes out of
-- what is released: no value is created.
pub apply_liquidation_split :
    (collateral notional amount im mm penalty : ℕ)
    → collateral < u64_size
    → notional < u64_size
    → 0 < amount
    → amount ≤ notional
    → im ≤ max_margin_bps
    → penalty ≤ max_margin_bps
    → (r : ℕ × ℕ) × (apply_liquidation collateral notional amount im mm penalty ≡ inr r)
      × (r.0 ≡ min_of (margin_of (notional - amount) im) collateral)
      × (r.0 + r.1 ≤ collateral)
unfolding apply_liquidation
apply_liquidation_split c n a im mm p hc hn ha le him hp =
    let kept : ℕ = min_of (margin_of (n - a) im) c in
    (
      (kept, margin_of (c - kept) p),
      ground (
        arith,
        margin_required_eq (n - a) im (omega arith) him,
        liquidation_penalty_eq (c - kept) p (omega arith) hp,
      ),
      refl,
      ground (arith, margin_of-le (c - kept) p hp),
    )
