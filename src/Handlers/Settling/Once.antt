-- ===== src/Handlers/Settling/Once.antt =====
-- `settle_close` pays exactly the PnL of what was closed, and `settle_funding` exactly the epochs that have
-- passed; neither does so twice.
use fructus.Base.{
  ℕ, zero, suc, ◌-◌, ◌*◌, ◌/◌, ◌≤◌, ◌<◌, ◌≡◌, refl, sym, ap, subst, ◌∙◌, ◌⊎◌, inl, inr, Bool, true,
  false, Option, none, some, arith, ◌==◌, if◌then◌else◌, u64_size, saturating_sub, checked_mul,
}
use native.Mathlib.Nat.{div-zero}
use fructus.Base.Checked.{checked_mul-eq-some}
use fructus.Int.{ℤ, pos, negsuc, ◌+ℤ◌, checked_i128}
use fructus.Errors.{ok, FructusError, >>=-eq-ok}
use fructus.Errors.Steps.{ok-injective, ok_or-eq-ok, require-eq-ok}
use fructus.Exchange.{AccountInfo, ExchangeRate, read_stake_pool}
use fructus.State.{OrderBook, Position}
use fructus.Orderbook.{mid}
use fructus.Positions.{PositionSide, pnl, from_side_u8}
use fructus.Settlement.{settle_signed}
use fructus.Settlement.Conservation.{Entitled}
use fructus.Funding.{premium, funding_rate, funding_payment, funding_epoch, from_position_side}
use fructus.Adapter.Books.{load_book}
use fructus.Handlers.Runtime.{Runtime, verify_collateral_pda}
use fructus.Handlers.Settling.{
  Books, known_side, bind_accounts, funding_index, mark_or, payment_at, route, realize_closed,
  settle_close, accrue, settle_funding,
}
use fructus.Handlers.Settling.Conservation.{
  Untouched, bind_accounts-Untouched, due, settle_close_nothing, settle_close_cases,
  settle_funding_nothing, settle_funding_cases,
}

-- The ledger of the user after a signed amount: exactly what the amount entitles to.
abbrev pub Credited : ℤ → Books → Books → Type 0
Credited z b b' =
    Entitled z b.user_collateral.deposited b.user_collateral.claimable
      (b'.user_collateral.deposited, b'.user_collateral.claimable, b'.market.pnl_pool)

route-Credited :
    (b : Books) (z : ℤ) {b' : Books}
    → b.user_collateral.deposited < u64_size
    → route b z ≡ ok b'
    → Credited z b b'
unfolding route settle_signed
route-Credited b (pos n) h e = ground arith
route-Credited b (negsuc n) h e = ground arith

known_side-some :
    (o : Option PositionSide) {side : PositionSide} → known_side o ≡ ok side → o ≡ some side
known_side-some none e = cc
known_side-some (some x) e = ap some (ok-injective e)

bind_accounts-side :
    (rt : Runtime) (market_key : ℕ) (p : Position) (collateral_key : ℕ) {side : PositionSide}
    → bind_accounts rt market_key p collateral_key ≡ ok side
    → from_side_u8 p.side ≡ some side
unfolding bind_accounts
bind_accounts-side rt market_key p collateral_key e =
    let (h, e1) = require-eq-ok (p.market == market_key) FructusError.position_not_found _ e in
    let (side, h1, e2) = >>=-eq-ok (known_side (from_side_u8 p.side)) _ e1 in
    let (x, h2, e3) = >>=-eq-ok (verify_collateral_pda rt market_key p.owner collateral_key) _ e2 in
    known_side-some (from_side_u8 p.side) h1 ∙ ap some (ok-injective e3)

-- The PnL of what was closed, at its entry and the rate in the stake pool, is credited; with nothing closed,
-- nothing changes.
abbrev pub Realized : Books → AccountInfo → Books → Type 0
Realized b index_source b' =
    ((b.position.closed_notional ≡ 0) × (b' ≡ b))
    ⊎ ((side : PositionSide) × (rate : ExchangeRate) × (amount : ℤ) × (from_side_u8 b.position.side
          ≡ some side)
        × (read_stake_pool index_source ≡ ok rate)
        × (pnl b.position.closed_entry_n_sum b.position.closed_entry_d_sum rate.total_lamports
              rate.pool_token_supply b.position.closed_notional side
            ≡ some amount)
        × Credited amount b b')

settle_close-Realized :
    (rt : Runtime) (market_key : ℕ) (b : Books) (collateral_key : ℕ) (index_source : AccountInfo)
    {b' : Books}
    → b.user_collateral.deposited < u64_size
    → settle_close rt market_key b collateral_key index_source ≡ ok b'
    → Realized b index_source b'
unfolding settle_close realize_closed
settle_close-Realized rt market_key b collateral_key index_source {b'} fits e =
    let (side, h, e1) = >>=-eq-ok (bind_accounts rt market_key b.position collateral_key) _ e in
    by_closed side (bind_accounts-side rt market_key b.position collateral_key h)
      (b.position.closed_notional == 0) refl e1
  where
    by_closed :
        (side : PositionSide)
        → from_side_u8 b.position.side ≡ some side
        → (t : Bool) → b.position.closed_notional == 0 ≡ t
        → (if t then ok b else realize_closed b index_source side) ≡ ok b'
        → Realized b index_source b'
    by_closed side known true h e = inl (ground arith, sym (ok-injective e))
    by_closed side known false h e =
        let (rate, h1, e1) = >>=-eq-ok (read_stake_pool index_source) _ e in
        let (amount, h2, e2) =
          ok_or-eq-ok
            (pnl b.position.closed_entry_n_sum b.position.closed_entry_d_sum rate.total_lamports
              rate.pool_token_supply b.position.closed_notional side)
            FructusError.arithmetic_overflow _ e1 in
        let (routed, h3, e3) = >>=-eq-ok (route b amount) _ e2 in
        inr (
          side,
          rate,
          amount,
          known,
          h1,
          h2,
          subst (Credited amount b) (ok-injective e3) (route-Credited b amount fits h3),
        )

-- A `settle_close` that goes through credits exactly the PnL of the closed part, which it takes from the pool
-- or puts there: deposit plus pool is what it was, reserve, notional and margin of the open part are untouched,
-- and the closed notional is 0; with nothing closed it changes nothing. A second call, at any index, then
-- succeeds and changes nothing: a close is paid once. The deposit is a `u64`.
pub settle_close_once :
    (rt : Runtime) (market_key : ℕ) (b : Books) (collateral_key : ℕ)
    (index_source again : AccountInfo) {b' : Books}
    → b.user_collateral.deposited < u64_size
    → settle_close rt market_key b collateral_key index_source ≡ ok b'
    → Untouched b b'
      × Realized b index_source b'
      × (b'.position.closed_notional ≡ 0)
      × (settle_close rt market_key b' collateral_key again ≡ ok b')
settle_close_once rt market_key b collateral_key index_source again {b'} fits e =
    let (side, h, u, h1) = settle_close_cases rt market_key b collateral_key index_source e in
    (
      u,
      settle_close-Realized rt market_key b collateral_key index_source fits e,
      h1,
      settle_close_nothing rt market_key b' collateral_key again
          (bind_accounts-Untouched rt market_key collateral_key u ∙ h) h1,
    )

-- The payment for all epochs from the position's last one to the slot's, at the rate that the premium of the
-- mark over the index gives, is credited; with no new epoch, nothing changes.
abbrev pub Charged : Books → OrderBook → AccountInfo → ℕ → Books → Type 0
Charged b order_book index_source now_slot b' =
    let epochs = now_slot / b.market.funding_epoch_slots - b.position.last_funding_epoch in
    ((epochs ≡ 0) × (b' ≡ b))
    ⊎ ((side : PositionSide) × (rate : ExchangeRate) × (index : ℕ) × (from_side_u8 b.position.side
          ≡ some side)
        × (read_stake_pool index_source ≡ ok rate)
        × (funding_index b.market rate (epochs * b.market.funding_epoch_slots) ≡ ok index)
        × (b'.position.last_funding_epoch ≡ now_slot / b.market.funding_epoch_slots)
        × Credited
            (funding_payment b.position.notional
              (funding_rate (premium (mark_or (mid (load_book order_book)) index) index)
                b.market.funding_k b.market.max_funding)
              epochs (from_position_side side))
            b b')

funding_epoch_eq : (slot epoch_slots : ℕ) → funding_epoch slot epoch_slots ≡ slot / epoch_slots
unfolding funding_epoch
funding_epoch_eq slot zero = sym (div-zero slot)
funding_epoch_eq slot (suc n) = ground arith

settle_funding-Charged :
    (rt : Runtime) (market_key : ℕ) (b : Books) (collateral_key : ℕ) (order_book : OrderBook)
    (index_source : AccountInfo) (now_slot : ℕ) {b' : Books}
    → b.user_collateral.deposited < u64_size
    → settle_funding rt market_key b collateral_key order_book index_source now_slot ≡ ok b'
    → Charged b order_book index_source now_slot b'
unfolding settle_funding accrue payment_at
settle_funding-Charged rt market_key b collateral_key order_book index_source now_slot {b'} fits e =
    let (side, h, e1) = >>=-eq-ok (bind_accounts rt market_key b.position collateral_key) _ e in
    subst (λ cur. Charged_at cur) (funding_epoch_eq now_slot b.market.funding_epoch_slots)
      (by_due side (bind_accounts-side rt market_key b.position collateral_key h) (epochs == 0) refl
        e1)
  where
    cur_epoch : ℕ
    cur_epoch = funding_epoch now_slot b.market.funding_epoch_slots

    epochs : ℕ
    epochs = saturating_sub cur_epoch b.position.last_funding_epoch

    Charged_at : ℕ → Type 0
    Charged_at cur =
        ((cur - b.position.last_funding_epoch ≡ 0) × (b' ≡ b))
        ⊎ ((side : PositionSide) × (rate : ExchangeRate) × (index : ℕ) × (from_side_u8
                b.position.side
              ≡ some side)
            × (read_stake_pool index_source ≡ ok rate)
            × (funding_index b.market rate
                  ((cur - b.position.last_funding_epoch) * b.market.funding_epoch_slots)
                ≡ ok index)
            × (b'.position.last_funding_epoch ≡ cur)
            × Credited
                (funding_payment b.position.notional
                  (funding_rate (premium (mark_or (mid (load_book order_book)) index) index)
                    b.market.funding_k b.market.max_funding)
                  (cur - b.position.last_funding_epoch) (from_position_side side))
                b b')

    by_due :
        (side : PositionSide)
        → from_side_u8 b.position.side ≡ some side
        → (t : Bool) → epochs == 0 ≡ t
        → (if t then ok b else accrue b order_book index_source cur_epoch epochs side) ≡ ok b'
        → Charged_at cur_epoch
    by_due side known true h e = inl (ground arith, sym (ok-injective e))
    by_due side known false h e =
        let overflow : FructusError = FructusError.arithmetic_overflow in
        let (rate, h1, e1) = >>=-eq-ok (read_stake_pool index_source) _ e in
        let (elapsed, h2, e2) =
          ok_or-eq-ok (checked_mul u64_size epochs b.market.funding_epoch_slots) overflow _ e1 in
        let (index, h3, e3) = >>=-eq-ok (funding_index b.market rate elapsed) _ e2 in
        let payment : ℤ = payment_at b.market b.position order_book index epochs side in
        let (routed, h4, e4) = >>=-eq-ok (route b payment) _ e3 in
        let (sum, h5, e5) =
          ok_or-eq-ok (checked_i128 (b.market.funding_accumulator +ℤ payment)) overflow _ e4 in
        inr (
          side,
          rate,
          index,
          known,
          h1,
          subst (λ n. funding_index b.market rate n ≡ ok index)
              (checked_mul-eq-some u64_size epochs b.market.funding_epoch_slots h2) h3,
          sym (ap (λ x. x.position.last_funding_epoch) (ok-injective e5)),
          subst (Credited payment b) (ok-injective e5) (route-Credited b payment fits h4),
        )

epochs_over :
    (b b' : Books) (now_slot later : ℕ)
    → Untouched b b'
    → later / b.market.funding_epoch_slots ≤ now_slot / b.market.funding_epoch_slots
    → due b' now_slot ≡ 0
    → due b' later ≡ 0
epochs_over b b' now_slot later u h k =
    let same : later / b'.market.funding_epoch_slots ≤ now_slot / b'.market.funding_epoch_slots =
      subst (λ n. later / n ≤ now_slot / n) (sym u.same_epoch_slots) h in
    omega (
      arith,
      same,
      k,
      funding_epoch_eq now_slot b'.market.funding_epoch_slots,
      funding_epoch_eq later b'.market.funding_epoch_slots,
    )

-- A `settle_funding` that goes through credits exactly the payment for the epochs from the position's last one
-- to the slot's, an epoch being `funding_epoch_slots` slots, which it takes from the pool or puts there: deposit
-- plus pool is what it was, and reserve, notional and margin are untouched; with no new epoch it changes
-- nothing. A second call at any slot up to the end of that epoch, with any book and index, then succeeds and
-- changes nothing: an epoch is charged once. The deposit is a `u64`.
pub settle_funding_once :
    (rt : Runtime) (market_key : ℕ) (b : Books) (collateral_key : ℕ) (order_book book : OrderBook)
    (index_source again : AccountInfo) (now_slot later : ℕ) {b' : Books}
    → b.user_collateral.deposited < u64_size
    → later / b.market.funding_epoch_slots ≤ now_slot / b.market.funding_epoch_slots
    → settle_funding rt market_key b collateral_key order_book index_source now_slot ≡ ok b'
    → Untouched b b'
      × Charged b order_book index_source now_slot b'
      × (settle_funding rt market_key b' collateral_key book again later ≡ ok b')
settle_funding_once rt market_key b collateral_key order_book book index_source again now_slot later
      {b'} fits same_epoch e =
    let (side, h, u, h1) =
      settle_funding_cases rt market_key b collateral_key order_book index_source now_slot e in
    (
      u,
      settle_funding-Charged rt market_key b collateral_key order_book index_source now_slot fits e,
      settle_funding_nothing rt market_key b' collateral_key book again later
          (bind_accounts-Untouched rt market_key collateral_key u ∙ h)
          (epochs_over b b' now_slot later u same_epoch h1),
    )
