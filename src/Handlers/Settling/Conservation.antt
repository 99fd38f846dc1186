-- ===== src/Handlers/Settling/Conservation.antt =====
-- `settle_close` and `settle_funding` route every signed amount through the pool and mint nothing.
use fructus.Base.{
  ℕ, ◌+◌, ◌≡◌, refl, ap, subst, Bool, true, false, arith, ◌==◌, if◌then◌else◌, u64_size,
  saturating_sub, checked_mul,
}
use fructus.Int.{ℤ, ◌+ℤ◌, checked_i128}
use fructus.Errors.{ok, FructusError, >>=-eq-ok}
use fructus.Errors.Steps.{ok-injective, ok_or-eq-ok}
use fructus.Exchange.{AccountInfo, read_stake_pool}
use fructus.State.{OrderBook}
use fructus.Positions.{PositionSide, pnl}
use fructus.Settlement.{settle_signed}
use fructus.Funding.{funding_epoch}
use fructus.Handlers.Runtime.{Runtime}
use fructus.Handlers.Settling.{
  Books, bind_accounts, funding_index, payment_at, route, realize_closed, settle_close, accrue,
  settle_funding,
}

-- The deposit of the user and the pool of the market.
abbrev pub value : Books → ℕ
value b = b.user_collateral.deposited + b.market.pnl_pool

route_conserves :
    (b : Books) (z : ℤ) {b' : Books}
    → route b z ≡ ok b'
    → (value b' ≡ value b) × (b'.user_collateral.reserved ≡ b.user_collateral.reserved)
unfolding route settle_signed
route_conserves b z e = ground arith

route_slots :
    (b : Books) (z : ℤ) {b' : Books}
    → route b z ≡ ok b'
    → (b'.market.funding_epoch_slots ≡ b.market.funding_epoch_slots)
      × (b'.market.initial_margin_bps ≡ b.market.initial_margin_bps)
unfolding route
route_slots b z e = ground arith

-- What a settlement leaves as it was: the value in the deposit and the pool, the reserve, the open part
-- of the position, the names by which its accounts are found, and the parameters of the market.
pub record Untouched (b b' : Books) : Type 0 where
  pub same_value : value b' ≡ value b
  pub same_reserved : b'.user_collateral.reserved ≡ b.user_collateral.reserved
  pub same_notional : b'.position.notional ≡ b.position.notional
  pub same_collateral : b'.position.collateral ≡ b.position.collateral
  pub same_market : b'.position.market ≡ b.position.market
  pub same_side : b'.position.side ≡ b.position.side
  pub same_owner : b'.position.owner ≡ b.position.owner
  pub same_epoch_slots : b'.market.funding_epoch_slots ≡ b.market.funding_epoch_slots
  pub same_margin_ratio : b'.market.initial_margin_bps ≡ b.market.initial_margin_bps

Untouched-refl : (b : Books) → Untouched b b
Untouched-refl b = record {
  same_value = refl;
  same_reserved = refl;
  same_notional = refl;
  same_collateral = refl;
  same_market = refl;
  same_side = refl;
  same_owner = refl;
  same_epoch_slots = refl;
  same_margin_ratio = refl;
}

realize_closed-Untouched :
    (b : Books) (index_source : AccountInfo) (side : PositionSide) {b' : Books}
    → realize_closed b index_source side ≡ ok b'
    → Untouched b b' × (b'.position.closed_notional ≡ 0)
unfolding realize_closed
realize_closed-Untouched b index_source side {b'} e =
    let overflow : FructusError = FructusError.arithmetic_overflow in
    let (rate, h, e1) = >>=-eq-ok (read_stake_pool index_source) _ e in
    let (amount, h1, e2) =
      ok_or-eq-ok
        (pnl b.position.closed_entry_n_sum b.position.closed_entry_d_sum rate.total_lamports
          rate.pool_token_supply b.position.closed_notional side)
        overflow _ e1 in
    let (routed, h2, e3) = >>=-eq-ok (route b amount) _ e2 in
    let (k, k1) = route_conserves b amount h2 in
    subst (λ x. Untouched b x × (x.position.closed_notional ≡ 0)) (ok-injective e3)
      (
        record {
          same_value = k;
          same_reserved = k1;
          same_notional = refl;
          same_collateral = refl;
          same_market = refl;
          same_side = refl;
          same_owner = refl;
          same_epoch_slots = (route_slots b amount h2).0;
          same_margin_ratio = (route_slots b amount h2).1;
        },
        refl,
      )

pub bind_accounts-Untouched :
    (rt : Runtime) (market_key collateral_key : ℕ) {b b' : Books}
    → Untouched b b'
    → bind_accounts rt market_key b'.position collateral_key
      ≡ bind_accounts rt market_key b.position collateral_key
unfolding bind_accounts
bind_accounts-Untouched rt market_key collateral_key u =
    rw (u.same_market, u.same_side, u.same_owner)

-- `settle_close` with the closed notional 0 changes nothing.
pub settle_close_nothing :
    (rt : Runtime) (market_key : ℕ) (b : Books) (collateral_key : ℕ) (index_source : AccountInfo)
    {side : PositionSide}
    → bind_accounts rt market_key b.position collateral_key ≡ ok side
    → b.position.closed_notional ≡ 0
    → settle_close rt market_key b collateral_key index_source ≡ ok b
unfolding settle_close
settle_close_nothing rt market_key b collateral_key index_source h h1 = rw (h, h1)

pub settle_close_cases :
    (rt : Runtime) (market_key : ℕ) (b : Books) (collateral_key : ℕ) (index_source : AccountInfo)
    {b' : Books}
    → settle_close rt market_key b collateral_key index_source ≡ ok b'
    → (side : PositionSide) × (bind_accounts rt market_key b.position collateral_key ≡ ok side)
      × Untouched b b'
      × (b'.position.closed_notional ≡ 0)
unfolding settle_close
settle_close_cases rt market_key b collateral_key index_source {b'} e =
    let (side, h, e1) = >>=-eq-ok (bind_accounts rt market_key b.position collateral_key) _ e in
    let (u, h1) = by_closed side (b.position.closed_notional == 0) refl e1 in (side, h, u, h1)
  where
    by_closed :
        (side : PositionSide) (t : Bool)
        → b.position.closed_notional == 0 ≡ t
        → (if t then ok b else realize_closed b index_source side) ≡ ok b'
        → Untouched b b' × (b'.position.closed_notional ≡ 0)
    by_closed side true h e =
        subst (λ x. Untouched b x × (x.position.closed_notional ≡ 0)) (ok-injective e)
          (Untouched-refl b, ground arith)
    by_closed side false h e = realize_closed-Untouched b index_source side e

-- Whatever `settle_close` does, it creates no value and leaves the open part alone.
pub settle_close-Untouched :
    (rt : Runtime) (market_key : ℕ) (b : Books) (collateral_key : ℕ) (index_source : AccountInfo)
    {b' : Books}
    → settle_close rt market_key b collateral_key index_source ≡ ok b'
    → Untouched b b'
settle_close-Untouched rt market_key b collateral_key index_source e =
    (settle_close_cases rt market_key b collateral_key index_source e).2

accrue-Untouched :
    (b : Books) (order_book : OrderBook) (index_source : AccountInfo) (cur_epoch epochs : ℕ)
    (side : PositionSide) {b' : Books}
    → accrue b order_book index_source cur_epoch epochs side ≡ ok b'
    → Untouched b b' × (b'.position.last_funding_epoch ≡ cur_epoch)
unfolding accrue
accrue-Untouched b order_book index_source cur_epoch epochs side {b'} e =
    let overflow : FructusError = FructusError.arithmetic_overflow in
    let (rate, h, e1) = >>=-eq-ok (read_stake_pool index_source) _ e in
    let (elapsed, h1, e2) =
      ok_or-eq-ok (checked_mul u64_size epochs b.market.funding_epoch_slots) overflow _ e1 in
    let (index, h2, e3) = >>=-eq-ok (funding_index b.market rate elapsed) _ e2 in
    let payment : ℤ = payment_at b.market b.position order_book index epochs side in
    let (routed, h3, e4) = >>=-eq-ok (route b payment) _ e3 in
    let (sum, h4, e5) =
      ok_or-eq-ok (checked_i128 (b.market.funding_accumulator +ℤ payment)) overflow _ e4 in
    let (k, k1) = route_conserves b payment h3 in
    subst (λ x. Untouched b x × (x.position.last_funding_epoch ≡ cur_epoch)) (ok-injective e5)
      (
        record {
          same_value = k;
          same_reserved = k1;
          same_notional = refl;
          same_collateral = refl;
          same_market = refl;
          same_side = refl;
          same_owner = refl;
          same_epoch_slots = (route_slots b payment h3).0;
          same_margin_ratio = (route_slots b payment h3).1;
        },
        refl,
      )

-- The epochs that a position has not been settled for.
abbrev pub due : Books → ℕ → ℕ
due b now_slot =
    saturating_sub (funding_epoch now_slot b.market.funding_epoch_slots)
      b.position.last_funding_epoch

pub settle_funding_nothing :
    (rt : Runtime) (market_key : ℕ) (b : Books) (collateral_key : ℕ) (order_book : OrderBook)
    (index_source : AccountInfo) (now_slot : ℕ) {side : PositionSide}
    → bind_accounts rt market_key b.position collateral_key ≡ ok side
    → due b now_slot ≡ 0
    → settle_funding rt market_key b collateral_key order_book index_source now_slot ≡ ok b
unfolding settle_funding
settle_funding_nothing rt market_key b collateral_key order_book index_source now_slot h h1 =
    rw (h, h1)

pub settle_funding_cases :
    (rt : Runtime) (market_key : ℕ) (b : Books) (collateral_key : ℕ) (order_book : OrderBook)
    (index_source : AccountInfo) (now_slot : ℕ) {b' : Books}
    → settle_funding rt market_key b collateral_key order_book index_source now_slot ≡ ok b'
    → (side : PositionSide) × (bind_accounts rt market_key b.position collateral_key ≡ ok side)
      × Untouched b b'
      × (due b' now_slot ≡ 0)
unfolding settle_funding
settle_funding_cases rt market_key b collateral_key order_book index_source now_slot {b'} e =
    let (side, h, e1) = >>=-eq-ok (bind_accounts rt market_key b.position collateral_key) _ e in
    let (u, h1) = by_due side (due b now_slot == 0) refl e1 in (side, h, u, h1)
  where
    cur_epoch : ℕ
    cur_epoch = funding_epoch now_slot b.market.funding_epoch_slots

    none_due :
        {x : Books} → Untouched b x → x.position.last_funding_epoch ≡ cur_epoch → due x now_slot ≡ 0
    none_due {x} u h = omega (arith, h, ap (λ n. funding_epoch now_slot n) u.same_epoch_slots)

    by_due :
        (side : PositionSide) (t : Bool)
        → due b now_slot == 0 ≡ t
        → (if t then ok b else accrue b order_book index_source cur_epoch (due b now_slot) side)
          ≡ ok b'
        → Untouched b b' × (due b' now_slot ≡ 0)
    by_due side true h e =
        subst (λ x. Untouched b x × (due x now_slot ≡ 0)) (ok-injective e)
          (Untouched-refl b, ground arith)
    by_due side false h e =
        let (u, k) = accrue-Untouched b order_book index_source cur_epoch (due b now_slot) side e in
        (u, none_due u k)

-- Whatever `settle_funding` does, it creates no value and leaves reserve, notional and margin alone.
pub settle_funding-Untouched :
    (rt : Runtime) (market_key : ℕ) (b : Books) (collateral_key : ℕ) (order_book : OrderBook)
    (index_source : AccountInfo) (now_slot : ℕ) {b' : Books}
    → settle_funding rt market_key b collateral_key order_book index_source now_slot ≡ ok b'
    → Untouched b b'
settle_funding-Untouched rt market_key b collateral_key order_book index_source now_slot e =
    (settle_funding_cases rt market_key b collateral_key order_book index_source now_slot e).2
