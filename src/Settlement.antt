-- ===== src/Settlement.antt =====
-- programs/fructus/src/settlement.rs: the PnL pool of a market and the pending claims of its users.
pub mod Conservation
use fructus.Base.{
  ℕ, ◌-◌, Option, none, some, ltb, if◌then◌else◌, checked_add, checked_sub, min_of, u64_size,
}
use fructus.Base.Options.{◌>>=◌}
use fructus.Int.{ℤ, pos, abs, ltb_ℤ, try_u64}

unfoldable pub apply_debit : ℕ → ℕ → ℕ → Option (ℕ × ℕ)
apply_debit deposited pool debit = do
  let collected = min_of debit deposited
  new_pool ← checked_add u64_size pool collected
  some (deposited - collected, new_pool)

unfoldable pub apply_credit : ℕ → ℕ → ℕ → ℕ → Option (ℕ × ℕ × ℕ)
apply_credit deposited claimable pool credit = do
  let paid = min_of credit pool
  new_deposited ← checked_add u64_size deposited paid
  new_claimable ← checked_add u64_size claimable (credit - paid)
  some (new_deposited, new_claimable, pool - paid)

unfoldable pub claim_payout : ℕ → ℕ → ℕ → Option (ℕ × ℕ × ℕ)
claim_payout deposited claimable pool = do
  let pay = min_of claimable pool
  new_deposited ← checked_add u64_size deposited pay
  some (new_deposited, claimable - pay, pool - pay)

unfoldable pub apply_liquidation_loss : ℕ → ℕ → ℕ → ℕ → Option (ℕ × ℕ)
apply_liquidation_loss deposited reserved_after loss reward = do
  unreserved ← checked_sub deposited reserved_after
  seam ← checked_sub unreserved reward
  let booked = min_of loss seam
  some (deposited - booked, booked)

unfoldable pub settle_signed : ℕ → ℕ → ℕ → ℤ → Option (ℕ × ℕ × ℕ)
unfolding apply_debit apply_credit
settle_signed deposited claimable pool signed_pnl =
    if ltb_ℤ (pos 0) signed_pnl
    then (try_u64 signed_pnl >>= λ credit. apply_credit deposited claimable pool credit)
    else (apply_debit deposited pool (min_of (abs signed_pnl) (u64_size - 1)) >>= λ r.
        some (r.0, claimable, r.1))
