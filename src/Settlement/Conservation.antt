-- ===== src/Settlement/Conservation.antt =====
-- programs/fructus/src/settlement.rs: what the pool operations conserve, and when they succeed.
use fructus.Base.{ℕ, ◌+◌, ◌-◌, ◌≤◌, ◌<◌, ◌≡◌, ◌⊎◌, none, some, true, is_some, arith, u64_size}
use fructus.Int.{ℤ, pos, negsuc, abs}
use fructus.Settlement.{claim_payout, apply_liquidation_loss, settle_signed}

-- What a user is entitled to after a signed amount: a gain adds to what is deposited or pending, a loss
-- leaves the pending claim alone and takes at most the deposit.
abbrev pub Entitled : ℤ → ℕ → ℕ → ℕ × ℕ × ℕ → Type 0
Entitled (pos n) deposited claimable (d, c, p) = d + c ≡ deposited + claimable + n
Entitled (negsuc n) deposited claimable (d, c, p) = (d ≡ deposited - (n + 1)) × (c ≡ claimable)

-- Whenever `settle_signed` succeeds, deposit plus pool is what it was: nothing is minted. A gain
-- raises deposit plus claim by exactly itself; a loss lowers the deposit by itself, down to 0 at the
-- least, and leaves the claim alone.
pub settle_signed_conserves :
    (deposited claimable pool : ℕ) (z : ℤ) {r : ℕ × ℕ × ℕ}
    → abs z < u64_size
    → settle_signed deposited claimable pool z ≡ some r
    → (r.0 + r.2 ≡ deposited + pool) × Entitled z deposited claimable r
unfolding settle_signed
settle_signed_conserves d c p (pos n) h e = ground arith
settle_signed_conserves d c p (negsuc n) h e = ground arith

-- `settle_signed` fails only on a real overflow: with the sums of deposit and pool, and of claim and
-- amount, in `u64` it succeeds.
pub settle_signed_total :
    (deposited claimable pool : ℕ) (z : ℤ)
    → deposited + pool < u64_size
    → claimable + abs z < u64_size
    → is_some (settle_signed deposited claimable pool z) ≡ true
unfolding settle_signed
settle_signed_total d c p (pos n) h k = ground arith
settle_signed_total d c p (negsuc n) h k = ground arith

-- A payout moves the same amount out of the claim and out of the pool into the deposit, and goes on
-- until the claim is paid or the pool is empty.
pub claim_payout_conserves :
    (deposited claimable pool : ℕ) {r : ℕ × ℕ × ℕ}
    → claim_payout deposited claimable pool ≡ some r
    → (r.0 + r.2 ≡ deposited + pool) × (r.0 + r.1 ≡ deposited + claimable) × ((r.1 ≡ 0) ⊎ (r.2 ≡ 0))
unfolding claim_payout
claim_payout_conserves d c p e = ground arith

-- The loss booked at a liquidation is at most the loss, leaves at least the other reserved margin and
-- the reward, and is refused exactly where the deposit does not cover those two.
pub apply_liquidation_loss_bounds :
    (deposited reserved_after loss reward : ℕ)
    → ((deposited < reserved_after + reward)
        × (apply_liquidation_loss deposited reserved_after loss reward ≡ none))
      ⊎ ((r : ℕ × ℕ) × (apply_liquidation_loss deposited reserved_after loss reward ≡ some r)
          × (r.0 + r.1 ≡ deposited)
          × (r.1 ≤ loss)
          × (reserved_after + reward ≤ r.0)
          × ((r.1 ≡ loss) ⊎ (r.0 ≡ reserved_after + reward)))
unfolding apply_liquidation_loss
apply_liquidation_loss_bounds d s l w = grind arith
