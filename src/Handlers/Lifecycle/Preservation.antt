-- ===== src/Handlers/Lifecycle/Preservation.antt =====
-- `open_position`, `close_position` and `settle_fill` keep a position at its margin, its owner's ledger
-- covered and the book well-formed.
use fructus.Base.{ℕ, ◌≤◌, ◌<◌, ◌≡◌, subst, Option, none, some, List, [], ◌∷◌, arith}
use fructus.Errors.{ok, err, Error, >>=-eq-ok}
use fructus.Errors.Steps.{ok-injective}
use fructus.Constants.{max_margin_bps}
use fructus.Exchange.{AccountInfo, ExchangeRate, read_stake_pool}
use fructus.State.{PerpMarket, Position, UserCollateral}
use fructus.Positions.{validate_open_args}
use fructus.Orderbook.{Side, Order, Fill}
use fructus.Orderbook.Engine.Orderly.{IsOrderly}
use fructus.Adapter.Books.{side_to_u8, side_from_u8, load_book, take_next_seq}
use fructus.Adapter.Takers.{match_open_taker}
use fructus.Adapter.Takers.Orderly.{take_next_seq-IsOrderly, match_open_taker-IsOrderly}
use fructus.Adapter.Fills.{apply_open_fills}
use fructus.Adapter.Fills.Margin.{Covered, apply_open_fills-Covered}
use fructus.Handlers.Runtime.{PdaAccount, create_or_load}
use fructus.Handlers.Orders.{persist}
use fructus.Handlers.Orders.Preservation.{persist-IsOrderly}
use fructus.Handlers.Lifecycle.{Trading, settle_open_fills, open_position}

-- The position that the account holds or would be created with, and the ledger, if there is one.
abbrev pub AllCovered : ℕ → PdaAccount → Option UserCollateral → Type 0
AllCovered bps account none = Unit
AllCovered bps account (some u) = (p : Position) → create_or_load account ≡ ok p → Covered bps p u

pub validate_open_args-size :
    (side size : ℕ) {x : Unit {0}} → validate_open_args side size ≡ ok x → 0 < size
unfolding validate_open_args
validate_open_args-size side size e = ground arith

settle_open_fills-AllCovered :
    (market : PerpMarket) (market_key owner : ℕ) (side : Side) (bump : ℕ) (account : PdaAccount)
    (collateral : Option UserCollateral) (rate : ExchangeRate) (now_slot : ℕ) (fs : List Fill)
    {r : PdaAccount × Option UserCollateral}
    → market.initial_margin_bps ≤ max_margin_bps
    → AllCovered market.initial_margin_bps account collateral
    → settle_open_fills market market_key owner side bump account collateral rate now_slot fs ≡ ok r
    → AllCovered market.initial_margin_bps r.0 r.1
unfolding settle_open_fills create_or_load
settle_open_fills-AllCovered market market_key owner side bump account collateral rate now_slot [] m
      v e =
    subst (λ x. AllCovered market.initial_margin_bps x.0 x.1) (ok-injective e) v
settle_open_fills-AllCovered market market_key owner side bump account none rate now_slot (f ∷ fs) m
      v e =
    let (position, h, e1) = >>=-eq-ok (create_or_load account) _ e in absurd (no_ledger e1)
  where
    no_ledger : {er : Error} {r : PdaAccount × Option UserCollateral} → err er ≡ ok r → ⊥
    no_ledger e = cc
settle_open_fills-AllCovered market market_key owner side bump account (some u) rate now_slot
      (f ∷ fs) m v e =
    let bps : ℕ = market.initial_margin_bps in
    let (position, h, e1) = >>=-eq-ok (create_or_load account) _ e in
    let opened : Position = record position {
      bump = bump;
      market = market_key;
      owner = owner;
      side = side_to_u8 side;
    } in
    let c : Covered bps position u = v position h in
    let c1 : Covered bps opened u = record {
      notional_u64 = c.notional_u64;
      at_margin = c.at_margin;
      within_deposit = c.within_deposit;
    } in
    let (applied, k, e2) =
      >>=-eq-ok
        (apply_open_fills opened u bps (f ∷ fs) rate.total_lamports rate.pool_token_supply now_slot
          market.funding_epoch_slots)
        _ e1 in
    let (c2, moved, size) =
      apply_open_fills-Covered opened u bps (f ∷ fs) rate.total_lamports rate.pool_token_supply
        now_slot market.funding_epoch_slots m c1 k in
    subst (λ x. AllCovered bps x.0 x.1) (ok-injective e2)
      (λ p h1. subst (λ q. Covered bps q applied.1) (ok-injective h1) c2)

-- An `open_position` that goes through leaves a well-formed book in the account, the position at exactly
-- the margin of its notional and the reserve of its owner's ledger covered by the deposit, where they were
-- so before and the market's initial margin is at most 100%; a fresh position counts as one of notional 0.
pub open_position_safe :
    (market : PerpMarket) (market_key : ℕ) (t : Trading) (index_source : AccountInfo)
    (owner bump now_slot side size price : ℕ) {t' : Trading}
    → market.initial_margin_bps ≤ max_margin_bps
    → IsOrderly (load_book t.order_book)
    → AllCovered market.initial_margin_bps t.position t.user_collateral
    → open_position market market_key t index_source owner bump now_slot side size price ≡ ok t'
    → IsOrderly (load_book t'.order_book)
      × AllCovered market.initial_margin_bps t'.position t'.user_collateral
unfolding open_position
open_position_safe market market_key t index_source owner bump now_slot side size price m v c e =
    let (x, h1, e1) = >>=-eq-ok (validate_open_args side size) _ e in
    let (parsed, h2, e2) = >>=-eq-ok (side_from_u8 side) _ e1 in
    let (rate, h3, e3) = >>=-eq-ok (read_stake_pool index_source) _ e2 in
    let (taken, h4, e4) = >>=-eq-ok (take_next_seq (load_book t.order_book)) _ e3 in
    let (v1, older) = take_next_seq-IsOrderly (load_book t.order_book) v h4 in
    let incoming : Order = record {
      owner = owner;
      side = parsed;
      price = price;
      size = size;
      seq = taken.1;
    } in
    let (matched, h5, e5) =
      >>=-eq-ok
        (match_open_taker t.order_book taken.0 incoming rate.total_lamports rate.pool_token_supply)
        _ e4 in
    let (settled, h6, e6) =
      >>=-eq-ok
        (settle_open_fills market market_key owner parsed bump t.position t.user_collateral rate
          now_slot matched.2)
        _ e5 in
    let (saved, h7, e7) = >>=-eq-ok (persist matched.0 matched.1 now_slot) _ e6 in
    let v2 : IsOrderly matched.1 =
      match_open_taker-IsOrderly t.order_book taken.0 incoming rate.total_lamports
        rate.pool_token_supply (validate_open_args-size side size h1) older v1 h5 in
    let c1 : AllCovered market.initial_margin_bps settled.0 settled.1 =
      settle_open_fills-AllCovered market market_key owner parsed bump t.position t.user_collateral
        rate now_slot matched.2 m c h6 in
    subst
      (λ x.
        IsOrderly (load_book x.order_book)
        × AllCovered market.initial_margin_bps x.position x.user_collateral)
      (ok-injective e7) (persist-IsOrderly matched.0 matched.1 now_slot v2 h7, c1)
