-- ===== src/Handlers/Liquidating/Safety.antt =====
-- `liquidate` conserves value, keeps both ledgers covered and the position at its margin.
use fructus.Base.{
  ℕ, ◌+◌, ◌-◌, ◌≤◌, ◌<◌, ◌≡◌, refl, subst, ◌⊎◌, inl, inr, some, arith, u64_size, min_of,
  saturating_sub,
}
use fructus.Int.{ℤ, abs}
use fructus.Errors.{Result, ok, FructusError, ◌>>=◌, >>=-eq-ok}
use fructus.Errors.Steps.{ok-injective, ok_or-eq-ok, ok_or-checked_sub, ok_or-checked_add}
use fructus.Constants.{max_margin_bps, liquidation_penalty_bps}
use fructus.Exchange.{AccountInfo}
use fructus.State.{OrderBook}
use fructus.Positions.Margin.{margin_of, margin_of-le, margin_of_mono}
use fructus.Settlement.{apply_liquidation_loss}
use fructus.Liquidation.{LiquidateError, invalid_amount, apply_liquidation}
use fructus.Liquidation.Health.{apply_liquidation_split, apply_liquidation_refused}
use fructus.Handlers.Runtime.{Runtime}
use fructus.Handlers.Liquidating.{
  Parties, from_liquidation, check_target, check_health, book_liquidation, liquidate_amount,
  liquidate,
}

-- The value in the two ledgers and the pool.
abbrev pub value : Parties → ℕ
value s = s.user_collateral.deposited + s.liquidator_collateral.deposited + s.market.pnl_pool

-- The amounts are `u64`, the ratio is valid, and the position holds exactly the margin of its notional.
pub record IsBacked (s : Parties) : Type 0 where
  pub notional_u64 : s.position.notional < u64_size
  pub ratio : s.market.initial_margin_bps ≤ max_margin_bps
  pub backed : s.position.collateral ≡ margin_of s.position.notional s.market.initial_margin_bps

-- What a liquidation of `amount` that went through has done.
pub record Liquidated (s : Parties) (amount : ℕ) (s' : Parties) : Type 0 where
  pub conserved : value s' ≡ value s
  pub reduced : s'.position.notional + amount ≡ s.position.notional
  pub released :
      s'.user_collateral.reserved + s.position.collateral
      ≡ s.user_collateral.reserved + s'.position.collateral
  pub covered : s'.user_collateral.reserved ≤ s'.user_collateral.deposited
  pub backed : s'.position.collateral ≡ margin_of s'.position.notional s.market.initial_margin_bps
  pub collected : s.market.pnl_pool ≤ s'.market.pnl_pool
  pub same_margin_ratio : s'.market.initial_margin_bps ≡ s.market.initial_margin_bps

-- `apply_liquidation_loss` leaves what is reserved and the reward.
loss_lem :
    (deposited reserved_after loss reward : ℕ) {r : ℕ × ℕ}
    → apply_liquidation_loss deposited reserved_after loss reward ≡ some r
    → (r.0 + r.1 ≡ deposited) × (reserved_after + reward ≤ r.0)
unfolding apply_liquidation_loss
loss_lem d a l w e = grind arith

book_liquidation-Liquidated :
    (s : Parties) (z : ℤ) (amount remaining reward : ℕ) {s' : Parties}
    → remaining ≤ s.position.collateral
    → remaining ≡ margin_of (s.position.notional - amount) s.market.initial_margin_bps
    → book_liquidation s z amount remaining reward ≡ ok s'
    → Liquidated s amount s'
unfolding book_liquidation
book_liquidation-Liquidated s z amount remaining reward kept margin e =
    let failed : FructusError = FructusError.arithmetic_overflow in
    let consumed : ℕ = s.position.collateral - remaining in
    let loss : ℕ = min_of (abs z) (u64_size - 1) in
    let (h1, e1) = ok_or-checked_sub s.position.notional amount failed _ e in
    let (h2, e2) = ok_or-checked_sub s.user_collateral.reserved consumed failed _ e1 in
    let (booked, h3, e3) =
      ok_or-eq-ok
        (apply_liquidation_loss s.user_collateral.deposited (s.user_collateral.reserved - consumed)
          loss reward)
        failed _ e2 in
    let (h4, e4) = ok_or-checked_add u64_size s.market.pnl_pool booked.1 failed _ e3 in
    let (h5, e5) =
      ok_or-checked_add u64_size s.liquidator_collateral.deposited reward failed _ e4 in
    let (h6, e6) = ok_or-checked_sub booked.0 reward failed _ e5 in
    let (h7, h8) = loss_lem _ _ _ _ h3 in
    subst (Liquidated s amount) (ok-injective e6) (record {
      conserved = omega arith;
      reduced = omega arith;
      released = omega arith;
      covered = omega arith;
      backed = margin;
      collected = omega arith;
      same_margin_ratio = refl;
    })

from_liquidation-eq-ok :
    (x : LiquidateError ⊎ (ℕ × ℕ)) (f : ℕ × ℕ → Result Parties) {s' : Parties}
    → (from_liquidation x >>= f) ≡ ok s'
    → (r : ℕ × ℕ) × (x ≡ inr r) × (f r ≡ ok s')
from_liquidation-eq-ok (inl e) f h = cc
from_liquidation-eq-ok (inr r) f h = (r, refl, h)

amount_cases :
    (notional amount : ℕ)
    → ((amount ≡ 0) ⊎ (notional < amount)) ⊎ ((0 < amount) × (amount ≤ notional))
amount_cases notional amount = grind arith

liquidate_amount-Liquidated :
    (s : Parties) (z : ℤ) (amount : ℕ) {s' : Parties}
    → IsBacked s
    → liquidate_amount s z amount ≡ ok s'
    → Liquidated s amount s'
unfolding liquidate_amount
liquidate_amount-Liquidated s z amount {s'} v e =
    let im : ℕ = s.market.initial_margin_bps in
    let mm : ℕ = s.market.maintenance_margin_bps in
    let call : LiquidateError ⊎ (ℕ × ℕ) =
      apply_liquidation s.position.collateral s.position.notional amount im mm
        liquidation_penalty_bps in
    let (r, h, e1) = from_liquidation-eq-ok call _ e in
    elim (amount_cases s.position.notional amount) [
      | inl out ↦ absurd_refused h (
          apply_liquidation_refused s.position.collateral s.position.notional amount im mm
            liquidation_penalty_bps out)
      | inr (h0, h1) ↦
          let (q, k1, k2, k3) =
            apply_liquidation_split s.position.collateral s.position.notional amount im mm
              liquidation_penalty_bps (omega (arith, margin_of-le s.position.notional im v.ratio))
              v.notional_u64 h0 h1 v.ratio (omega arith) in
          let same : r.0 ≡ q.0 = keeps_same h k1 in
          let mono : margin_of (s.position.notional - amount) im
              ≤ margin_of s.position.notional im =
            margin_of_mono (s.position.notional - amount) s.position.notional im (omega arith) in
          book_liquidation-Liquidated s z amount r.0 r.1 (ground arith) (ground arith) e1
    ]
  where
    absurd_refused :
        {x : LiquidateError ⊎ (ℕ × ℕ)} {r : ℕ × ℕ}
        → x ≡ inr r
        → x ≡ inl invalid_amount
        → Liquidated s amount s'
    absurd_refused p q = cc

    keeps_same : {x : LiquidateError ⊎ (ℕ × ℕ)} {r q : ℕ × ℕ} → x ≡ inr r → x ≡ inr q → r.0 ≡ q.0
    keeps_same p q = cc

-- A `liquidate` that goes through, on a position that holds exactly the margin of its notional, moves
-- value between the two ledgers and the pool and creates none. It takes the amount off the notional,
-- releases from the reserve exactly what the position's margin falls by, leaves the position with the
-- margin of the notional that survives and the ledger's reserve covered by its deposit, takes nothing out
-- of the pool and leaves the margin ratio of the market alone.
pub liquidate-Liquidated :
    (rt : Runtime) (market_key : ℕ) (s : Parties) (collateral_key : ℕ) (order_book : OrderBook)
    (index_source : AccountInfo) (now_slot amount : ℕ) {s' : Parties}
    → IsBacked s
    → liquidate rt market_key s collateral_key order_book index_source now_slot amount ≡ ok s'
    → Liquidated s amount s'
unfolding liquidate
liquidate-Liquidated rt market_key s collateral_key order_book index_source now_slot amount v e =
    let (side, h, e1) =
      >>=-eq-ok (check_target rt market_key s collateral_key order_book now_slot) _ e in
    let (unrealized, h1, e2) = >>=-eq-ok (check_health s index_source side) _ e1 in
    liquidate_amount-Liquidated s unrealized amount v e2

book_liquidation_conserves :
    (s : Parties) (z : ℤ) (amount remaining reward : ℕ) {s' : Parties}
    → book_liquidation s z amount remaining reward ≡ ok s'
    → value s' ≡ value s
unfolding book_liquidation
book_liquidation_conserves s z amount remaining reward e =
    let failed : FructusError = FructusError.arithmetic_overflow in
    let consumed : ℕ = saturating_sub s.position.collateral remaining in
    let loss : ℕ = min_of (abs z) (u64_size - 1) in
    let (h1, e1) = ok_or-checked_sub s.position.notional amount failed _ e in
    let (h2, e2) = ok_or-checked_sub s.user_collateral.reserved consumed failed _ e1 in
    let (booked, h3, e3) =
      ok_or-eq-ok
        (apply_liquidation_loss s.user_collateral.deposited (s.user_collateral.reserved - consumed)
          loss reward)
        failed _ e2 in
    let (h4, e4) = ok_or-checked_add u64_size s.market.pnl_pool booked.1 failed _ e3 in
    let (h5, e5) =
      ok_or-checked_add u64_size s.liquidator_collateral.deposited reward failed _ e4 in
    let (h6, e6) = ok_or-checked_sub booked.0 reward failed _ e5 in
    let (h7, h8) = loss_lem _ _ _ _ h3 in
    subst (λ x. value x ≡ value s) (ok-injective e6) (omega arith)

-- A `liquidate` that goes through, on any position, creates no value in the two ledgers and the pool.
pub liquidate_conserves :
    (rt : Runtime) (market_key : ℕ) (s : Parties) (collateral_key : ℕ) (order_book : OrderBook)
    (index_source : AccountInfo) (now_slot amount : ℕ) {s' : Parties}
    → liquidate rt market_key s collateral_key order_book index_source now_slot amount ≡ ok s'
    → value s' ≡ value s
unfolding liquidate liquidate_amount
liquidate_conserves rt market_key s collateral_key order_book index_source now_slot amount e =
    let (side, h, e1) =
      >>=-eq-ok (check_target rt market_key s collateral_key order_book now_slot) _ e in
    let (unrealized, h1, e2) = >>=-eq-ok (check_health s index_source side) _ e1 in
    let (r, h2, e3) =
      from_liquidation-eq-ok
        (apply_liquidation s.position.collateral s.position.notional amount
          s.market.initial_margin_bps s.market.maintenance_margin_bps liquidation_penalty_bps)
        _ e2 in
    book_liquidation_conserves s unrealized amount r.0 r.1 e3
