-- ===== src/Handlers/Lifecycle/Closing.antt =====
-- `close_position` and `settle_fill` keep a position at its margin and its owner's ledger covered.
use fructus.Base.{
  ℕ, ◌-◌, ◌≤◌, ◌≡◌, refl, ap, subst, not, Option, none, some, List, [], ◌∷◌, ltb, ◌==◌, leb,
  u64_size,
}
use fructus.Errors.{Result, ok, err, Error, FructusError, >>=-eq-ok}
use fructus.Errors.Steps.{ok-injective, require-eq-ok}
use fructus.Constants.{max_margin_bps}
use fructus.Exchange.{AccountInfo, ExchangeRate, read_stake_pool}
use fructus.State.{OrderBook, OutEvent, PerpMarket, Position, UserCollateral}
use fructus.Orderbook.{Side, OrderKind, Order, Fill, MatchOutcome, Book}
use fructus.Orderbook.Engine.{match_order, opposite}
use fructus.Orderbook.Engine.Orderly.{IsOrderly, match_order-IsOrderly}
use fructus.Adapter.Books.{side_from_u8, load_book, take_next_seq}
use fructus.Adapter.Events.{emit_fill_events}
use fructus.Adapter.Takers.Orderly.{take_next_seq-IsOrderly}
use fructus.Adapter.Fills.{apply_open_fills, apply_close_fills}
use fructus.Adapter.Fills.Margin.{Covered, apply_open_fills-Covered, apply_close_fills-Covered}
use fructus.Handlers.Runtime.{
  Runtime, PdaAccount, pristine, foreign, owned, create_or_load, existing_ledger,
  verify_maker_accounts,
}
use fructus.Handlers.Orders.{persist}
use fructus.Handlers.Orders.Preservation.{persist-IsOrderly}
use fructus.Handlers.Lifecycle.{
  Trading, live_position, settle_close_fills, finish_close, close_position, fill_of, settle_pending,
}
use fructus.Handlers.Lifecycle.Preservation.{AllCovered}

-- The position that a close starts from is the one in the account.
pub live_position-owned :
    (account : PdaAccount) (size : ℕ) {p : Position}
    → live_position account size ≡ ok p
    → account ≡ owned p
unfolding live_position
live_position-owned pristine size e = cc
live_position-owned (foreign has_data) size e = cc
live_position-owned (owned q) size e =
    let (h, e1) = require-eq-ok (ltb 0 q.notional) FructusError.position_not_found _ e in
    let (k, e2) = require-eq-ok (leb size q.notional) FructusError.invalid_close_size _ e1 in
    ap owned (ok-injective e2)

owned-Covered :
    (bps : ℕ) (p : Position) (u : UserCollateral)
    → Covered bps p u
    → (q : Position) → create_or_load (owned p) ≡ ok q
    → Covered bps q u
unfolding create_or_load
owned-Covered bps p u c q e = subst (λ x. Covered bps x u) (ok-injective e) c

settle_close_fills-AllCovered :
    (market : PerpMarket) (p : Position) (collateral : Option UserCollateral) (fs : List Fill)
    {r : PdaAccount × Option UserCollateral}
    → market.initial_margin_bps ≤ max_margin_bps
    → AllCovered market.initial_margin_bps (owned p) collateral
    → settle_close_fills market p collateral fs ≡ ok r
    → AllCovered market.initial_margin_bps r.0 r.1
unfolding settle_close_fills create_or_load
settle_close_fills-AllCovered market p collateral [] m v e =
    subst (λ x. AllCovered market.initial_margin_bps x.0 x.1) (ok-injective e) v
settle_close_fills-AllCovered market p none (f ∷ fs) m v e = cc
settle_close_fills-AllCovered market p (some u) (f ∷ fs) m v e =
    let bps : ℕ = market.initial_margin_bps in
    let (applied, k, e1) = >>=-eq-ok (apply_close_fills p u bps (f ∷ fs)) _ e in
    let (c, moved, size, closed) = apply_close_fills-Covered p u bps (f ∷ fs) m (v p refl) k in
    subst (λ x. AllCovered bps x.0 x.1) (ok-injective e1) (owned-Covered bps applied.0 applied.1 c)

finish_close-safe :
    (market : PerpMarket) (t : Trading) (position : Position) (parsed : Side) (rate : ExchangeRate)
    (now_slot : ℕ) (book : Book) (outcome : MatchOutcome) {t' : Trading}
    → market.initial_margin_bps ≤ max_margin_bps
    → IsOrderly book
    → AllCovered market.initial_margin_bps (owned position) t.user_collateral
    → finish_close market t position parsed rate now_slot (book, outcome) ≡ ok t'
    → IsOrderly (load_book t'.order_book)
      × AllCovered market.initial_margin_bps t'.position t'.user_collateral
unfolding finish_close
finish_close-safe market t position parsed rate now_slot book outcome m v c e =
    let emitted : Result (Unit {0}) × OrderBook =
      emit_fill_events t.order_book outcome.fills parsed rate.total_lamports
        rate.pool_token_supply in
    let (x, h6, e6) = >>=-eq-ok emitted.0 _ e in
    let (settled, h7, e7) =
      >>=-eq-ok (settle_close_fills market position t.user_collateral outcome.fills) _ e6 in
    let (saved, h8, e8) = >>=-eq-ok (persist emitted.1 book now_slot) _ e7 in
    subst
      (λ x.
        IsOrderly (load_book x.order_book)
        × AllCovered market.initial_margin_bps x.position x.user_collateral)
      (ok-injective e8)
      (
        persist-IsOrderly emitted.1 book now_slot v h8,
        settle_close_fills-AllCovered market position t.user_collateral outcome.fills m c h7,
      )

-- A `close_position` that goes through leaves a well-formed book in the account, the position at exactly
-- the margin of the notional that is left and the reserve of its owner's ledger covered by the deposit,
-- where they were so before and the market's initial margin is at most 100%.
pub close_position_safe :
    (market : PerpMarket) (t : Trading) (index_source : AccountInfo) (owner now_slot side size : ℕ)
    {t' : Trading}
    → market.initial_margin_bps ≤ max_margin_bps
    → IsOrderly (load_book t.order_book)
    → AllCovered market.initial_margin_bps t.position t.user_collateral
    → close_position market t index_source owner now_slot side size ≡ ok t'
    → IsOrderly (load_book t'.order_book)
      × AllCovered market.initial_margin_bps t'.position t'.user_collateral
unfolding close_position
close_position_safe market t index_source owner now_slot side size m v c e =
    let (h1, e1) = require-eq-ok (not (size == 0)) FructusError.invalid_size _ e in
    let (parsed, h2, e2) = >>=-eq-ok (side_from_u8 side) _ e1 in
    let (rate, h3, e3) = >>=-eq-ok (read_stake_pool index_source) _ e2 in
    let (position, h4, e4) = >>=-eq-ok (live_position t.position size) _ e3 in
    let (taken, h5, e5) = >>=-eq-ok (take_next_seq (load_book t.order_book)) _ e4 in
    let (v1, older) = take_next_seq-IsOrderly (load_book t.order_book) v h5 in
    let incoming : Order = record {
      owner = owner;
      side = opposite parsed;
      price = 0;
      size = size;
      seq = taken.1;
    } in
    let c1 : AllCovered market.initial_margin_bps (owned position) t.user_collateral =
      subst (λ a. AllCovered market.initial_margin_bps a t.user_collateral)
        (live_position-owned t.position size h4) c in
    let (book, outcome) = match_order taken.0 incoming OrderKind.market (u64_size - 1) in
    finish_close-safe market t position parsed rate now_slot book outcome m
      (match_order-IsOrderly taken.0 incoming OrderKind.market (u64_size - 1) v1) c1 e5

-- Booking a maker's pending fill, where it goes through, leaves the maker's position at exactly the margin
-- of its notional and the maker's ledger covered.
pub settle_pending_safe :
    (rt : Runtime) (market : PerpMarket) (market_key : ℕ) (t : Trading)
    (position_key collateral_key now_slot seq : ℕ) (event : OutEvent) {t' : Trading}
    → market.initial_margin_bps ≤ max_margin_bps
    → AllCovered market.initial_margin_bps t.position t.user_collateral
    → settle_pending rt market market_key t position_key collateral_key now_slot seq event ≡ ok t'
    → AllCovered market.initial_margin_bps t'.position t'.user_collateral
unfolding settle_pending
settle_pending_safe rt market market_key t position_key collateral_key now_slot seq event m c e =
    let bps : ℕ = market.initial_margin_bps in
    let (bump, h, e1) =
      >>=-eq-ok (verify_maker_accounts rt market_key event position_key collateral_key) _ e in
    let (ledger, h1, e2) = >>=-eq-ok (existing_ledger t.user_collateral) _ e1 in
    let (position, h2, e3) = >>=-eq-ok (create_or_load t.position) _ e2 in
    let opened : Position = record position {
      bump = bump;
      market = market_key;
      owner = event.owner;
      side = event.side;
    } in
    let c1 : Covered bps position ledger = covered t.user_collateral ledger h1 position c h2 in
    let c2 : Covered bps opened ledger = record {
      notional_u64 = c1.notional_u64;
      at_margin = c1.at_margin;
      within_deposit = c1.within_deposit;
    } in
    let (applied, h3, e4) =
      >>=-eq-ok
        (apply_open_fills opened ledger bps (fill_of event ∷ []) event.entry_total_lamports
          event.entry_pool_token_supply now_slot market.funding_epoch_slots)
        _ e3 in
    let (c3, moved, size) =
      apply_open_fills-Covered opened ledger bps (fill_of event ∷ []) event.entry_total_lamports
        event.entry_pool_token_supply now_slot market.funding_epoch_slots m c2 h3 in
    subst (λ x. AllCovered bps x.position x.user_collateral) (ok-injective e4)
      (owned-Covered bps applied.0 applied.1 c3)
  where
    covered :
        (o : Option UserCollateral) (u : UserCollateral)
        → existing_ledger o ≡ ok u
        → (p : Position) → AllCovered market.initial_margin_bps t.position o
        → create_or_load t.position ≡ ok p
        → Covered market.initial_margin_bps p u
    covered none u h p c k = absurd (no_ledger h)
      where
        no_ledger : {er : Error} {u : UserCollateral} → err er ≡ ok u → ⊥
        no_ledger h = cc
    covered (some w) u h p c k =
        subst (λ x. Covered market.initial_margin_bps p x) (ok-injective h) (c p k)
