-- ===== src/Protocol/Solvency/Fills.antt =====
-- Trading leaves the deposit in every ledger as it is: fills only move what is in reserve.
use fructus.Base.{
  ℕ, ◌-◌, ◌≡◌, sym, ap, ◌∙◌, not, Option, none, some, List, [], ◌∷◌, arith, ◌==◌, if◌then◌else◌,
  u64_size,
}
use fructus.Errors.{Result, ok, FructusError, >>=-eq-ok}
use fructus.Errors.Steps.{ok-injective, require-eq-ok}
use fructus.Exchange.{AccountInfo, ExchangeRate, read_stake_pool}
use fructus.State.{OrderBook, OutEvent, PerpMarket, Position, UserCollateral}
use fructus.Positions.{validate_open_args}
use fructus.Orderbook.{Side, OrderKind, Order, Fill, MatchOutcome, Book}
use fructus.Orderbook.Engine.{match_order, opposite}
use fructus.Adapter.Books.{side_to_u8, side_from_u8, load_book, take_next_seq}
use fructus.Adapter.Events.{emit_fill_events, settle_event}
use fructus.Adapter.Takers.{match_open_taker}
use fructus.Adapter.Fills.{
  open_sums, is_closed, reserve_margin, apply_open_fills, close_sum, release_margin,
  apply_close_fills,
}
use fructus.Handlers.Runtime.{
  Runtime, PdaAccount, create_or_load, existing_ledger, verify_maker_accounts,
}
use fructus.Handlers.Orders.{persist}
use fructus.Handlers.Lifecycle.{
  Trading, settle_open_fills, open_position, live_position, settle_close_fills, finish_close,
  close_position, fill_of, settle_pending, settle_fill,
}
use fructus.Protocol.Ledgers.{deposit_of}

reserve_margin-deposit :
    (p : Position) (u : UserCollateral) (bps : ℕ) (sums : ℕ × ℕ × ℕ) (slot es : ℕ)
    {r : Position × UserCollateral}
    → reserve_margin p u bps sums slot es ≡ ok r
    → r.1.deposited ≡ u.deposited
unfolding reserve_margin
reserve_margin-deposit p u bps sums slot es e = ground arith

apply_open_fills-deposit :
    (p : Position) (u : UserCollateral) (bps : ℕ) (fs : List Fill) (n d slot es : ℕ)
    {r : Position × UserCollateral}
    → apply_open_fills p u bps fs n d slot es ≡ ok r
    → r.1.deposited ≡ u.deposited
unfolding apply_open_fills
apply_open_fills-deposit p u bps [] n d slot es e = ap (λ x. x.1.deposited) (sym (ok-injective e))
apply_open_fills-deposit p u bps (f ∷ fs) n d slot es e =
    let (sums, h, e1) =
      >>=-eq-ok
        (open_sums n d (f ∷ fs) 0 (if is_closed p then 0 else p.entry_n_sum)
          (if is_closed p then 0 else p.entry_d_sum))
        _ e in
    reserve_margin-deposit p u bps sums slot es e1

release_margin-deposit :
    (p : Position) (u : UserCollateral) (bps delta : ℕ) {r : Position × UserCollateral}
    → release_margin p u bps delta ≡ ok r
    → r.1.deposited ≡ u.deposited
unfolding release_margin
release_margin-deposit p u bps delta e = ground arith

apply_close_fills-deposit :
    (p : Position) (u : UserCollateral) (bps : ℕ) (fs : List Fill) {r : Position × UserCollateral}
    → apply_close_fills p u bps fs ≡ ok r
    → r.1.deposited ≡ u.deposited
unfolding apply_close_fills
apply_close_fills-deposit p u bps [] e = ap (λ x. x.1.deposited) (sym (ok-injective e))
apply_close_fills-deposit p u bps (f ∷ fs) e =
    let (delta, h, e1) = >>=-eq-ok (close_sum (f ∷ fs) 0) _ e in
    release_margin-deposit p u bps delta e1

existing_ledger-deposit :
    (o : Option UserCollateral) {u : UserCollateral}
    → existing_ledger o ≡ ok u
    → u.deposited ≡ deposit_of o
existing_ledger-deposit none h = cc
existing_ledger-deposit (some v) h = ap (λ x. x.deposited) (sym (ok-injective h))

settle_open_fills-deposit :
    (market : PerpMarket) (market_key owner : ℕ) (side : Side) (bump : ℕ) (account : PdaAccount)
    (collateral : Option UserCollateral) (rate : ExchangeRate) (now_slot : ℕ) (fs : List Fill)
    {r : PdaAccount × Option UserCollateral}
    → settle_open_fills market market_key owner side bump account collateral rate now_slot fs ≡ ok r
    → deposit_of r.1 ≡ deposit_of collateral
unfolding settle_open_fills
settle_open_fills-deposit market market_key owner side bump account collateral rate now_slot [] e =
    ap (λ x. deposit_of x.1) (sym (ok-injective e))
settle_open_fills-deposit market market_key owner side bump account collateral rate now_slot
      (f ∷ fs) e =
    let (position, h, e1) = >>=-eq-ok (create_or_load account) _ e in
    let (ledger, h1, e2) = >>=-eq-ok (existing_ledger collateral) _ e1 in
    let (applied, h2, e3) =
      >>=-eq-ok
        (apply_open_fills
          (record position {
            bump = bump;
            market = market_key;
            owner = owner;
            side = side_to_u8 side;
          })
          ledger market.initial_margin_bps (f ∷ fs) rate.total_lamports rate.pool_token_supply
          now_slot market.funding_epoch_slots)
        _ e2 in
    ap (λ x. deposit_of x.1) (sym (ok-injective e3))
    ∙ apply_open_fills-deposit _ ledger market.initial_margin_bps (f ∷ fs) rate.total_lamports
        rate.pool_token_supply now_slot market.funding_epoch_slots h2
    ∙ existing_ledger-deposit collateral h1

-- The deposit in the ledger of an `open_position` that goes through stays.
pub open_position-deposit :
    (market : PerpMarket) (market_key : ℕ) (t : Trading) (index_source : AccountInfo)
    (owner bump now_slot side size price : ℕ) {t' : Trading}
    → open_position market market_key t index_source owner bump now_slot side size price ≡ ok t'
    → deposit_of t'.user_collateral ≡ deposit_of t.user_collateral
unfolding open_position
open_position-deposit market market_key t index_source owner bump now_slot side size price e =
    let (x, h1, e1) = >>=-eq-ok (validate_open_args side size) _ e in
    let (parsed, h2, e2) = >>=-eq-ok (side_from_u8 side) _ e1 in
    let (rate, h3, e3) = >>=-eq-ok (read_stake_pool index_source) _ e2 in
    let (taken, h4, e4) = >>=-eq-ok (take_next_seq (load_book t.order_book)) _ e3 in
    let incoming : Order = record {
      owner = owner;
      side = parsed;
      price = price;
      size = size;
      seq = taken.1;
    } in
    let (matched, h5, e5) =
      >>=-eq-ok
        (match_open_taker t.order_book taken.0 incoming rate.total_lamports rate.pool_token_supply)
        _ e4 in
    let (settled, h6, e6) =
      >>=-eq-ok
        (settle_open_fills market market_key owner parsed bump t.position t.user_collateral rate
          now_slot matched.2)
        _ e5 in
    let (saved, h7, e7) = >>=-eq-ok (persist matched.0 matched.1 now_slot) _ e6 in
    ap (λ x. deposit_of x.user_collateral) (sym (ok-injective e7))
    ∙ settle_open_fills-deposit market market_key owner parsed bump t.position t.user_collateral
        rate now_slot matched.2 h6

settle_close_fills-deposit :
    (market : PerpMarket) (p : Position) (collateral : Option UserCollateral) (fs : List Fill)
    {r : PdaAccount × Option UserCollateral}
    → settle_close_fills market p collateral fs ≡ ok r
    → deposit_of r.1 ≡ deposit_of collateral
unfolding settle_close_fills
settle_close_fills-deposit market p collateral [] e =
    ap (λ x. deposit_of x.1) (sym (ok-injective e))
settle_close_fills-deposit market p none (f ∷ fs) e = cc
settle_close_fills-deposit market p (some u) (f ∷ fs) e =
    let (applied, h, e1) =
      >>=-eq-ok (apply_close_fills p u market.initial_margin_bps (f ∷ fs)) _ e in
    ap (λ x. deposit_of x.1) (sym (ok-injective e1))
    ∙ apply_close_fills-deposit p u market.initial_margin_bps (f ∷ fs) h

finish_close-deposit :
    (market : PerpMarket) (t : Trading) (position : Position) (parsed : Side) (rate : ExchangeRate)
    (now_slot : ℕ) (book : Book) (outcome : MatchOutcome) {t' : Trading}
    → finish_close market t position parsed rate now_slot (book, outcome) ≡ ok t'
    → deposit_of t'.user_collateral ≡ deposit_of t.user_collateral
unfolding finish_close
finish_close-deposit market t position parsed rate now_slot book outcome e =
    let emitted : Result (Unit {0}) × OrderBook =
      emit_fill_events t.order_book outcome.fills parsed rate.total_lamports
        rate.pool_token_supply in
    let (x, h6, e6) = >>=-eq-ok emitted.0 _ e in
    let (settled, h7, e7) =
      >>=-eq-ok (settle_close_fills market position t.user_collateral outcome.fills) _ e6 in
    let (saved, h8, e8) = >>=-eq-ok (persist emitted.1 book now_slot) _ e7 in
    ap (λ x. deposit_of x.user_collateral) (sym (ok-injective e8))
    ∙ settle_close_fills-deposit market position t.user_collateral outcome.fills h7

-- The same of a `close_position`.
pub close_position-deposit :
    (market : PerpMarket) (t : Trading) (index_source : AccountInfo) (owner now_slot side size : ℕ)
    {t' : Trading}
    → close_position market t index_source owner now_slot side size ≡ ok t'
    → deposit_of t'.user_collateral ≡ deposit_of t.user_collateral
unfolding close_position
close_position-deposit market t index_source owner now_slot side size e =
    let (h1, e1) = require-eq-ok (not (size == 0)) FructusError.invalid_size _ e in
    let (parsed, h2, e2) = >>=-eq-ok (side_from_u8 side) _ e1 in
    let (rate, h3, e3) = >>=-eq-ok (read_stake_pool index_source) _ e2 in
    let (position, h4, e4) = >>=-eq-ok (live_position t.position size) _ e3 in
    let (taken, h5, e5) = >>=-eq-ok (take_next_seq (load_book t.order_book)) _ e4 in
    let incoming : Order = record {
      owner = owner;
      side = opposite parsed;
      price = 0;
      size = size;
      seq = taken.1;
    } in
    let (book, outcome) = match_order taken.0 incoming OrderKind.market (u64_size - 1) in
    finish_close-deposit market t position parsed rate now_slot book outcome e5

settle_pending-deposit :
    (rt : Runtime) (market : PerpMarket) (market_key : ℕ) (t : Trading)
    (position_key collateral_key now_slot seq : ℕ) (event : OutEvent) {t' : Trading}
    → settle_pending rt market market_key t position_key collateral_key now_slot seq event ≡ ok t'
    → deposit_of t'.user_collateral ≡ deposit_of t.user_collateral
unfolding settle_pending
settle_pending-deposit rt market market_key t position_key collateral_key now_slot seq event e =
    let (bump, h, e1) =
      >>=-eq-ok (verify_maker_accounts rt market_key event position_key collateral_key) _ e in
    let (ledger, h1, e2) = >>=-eq-ok (existing_ledger t.user_collateral) _ e1 in
    let (position, h2, e3) = >>=-eq-ok (create_or_load t.position) _ e2 in
    let (applied, h3, e4) =
      >>=-eq-ok
        (apply_open_fills
          (record position {
            bump = bump;
            market = market_key;
            owner = event.owner;
            side = event.side;
          })
          ledger market.initial_margin_bps (fill_of event ∷ []) event.entry_total_lamports
          event.entry_pool_token_supply now_slot market.funding_epoch_slots)
        _ e3 in
    ap (λ x. deposit_of x.user_collateral) (sym (ok-injective e4))
    ∙ apply_open_fills-deposit _ ledger market.initial_margin_bps (fill_of event ∷ [])
        event.entry_total_lamports event.entry_pool_token_supply now_slot market.funding_epoch_slots
        h3
    ∙ existing_ledger-deposit t.user_collateral h1

-- The same of a `settle_fill`, which may also find nothing to do.
pub settle_fill-deposit :
    (rt : Runtime) (market : PerpMarket) (market_key : ℕ) (t : Trading)
    (position_key collateral_key now_slot seq : ℕ) {t' : Trading}
    → settle_fill rt market market_key t position_key collateral_key now_slot seq ≡ ok t'
    → deposit_of t'.user_collateral ≡ deposit_of t.user_collateral
unfolding settle_fill
settle_fill-deposit rt market market_key t position_key collateral_key now_slot seq {t'} e =
    let (found, h, e1) = >>=-eq-ok (settle_event t.order_book seq) _ e in by_found found e1
  where
    by_found :
        (found : Option OutEvent)
        → elim found [
          | none ↦ ok t
          | some event ↦
              settle_pending rt market market_key t position_key collateral_key now_slot seq event
        ]
          ≡ ok t'
        → deposit_of t'.user_collateral ≡ deposit_of t.user_collateral
    by_found none e = ap (λ x. deposit_of x.user_collateral) (sym (ok-injective e))
    by_found (some event) e =
        settle_pending-deposit rt market market_key t position_key collateral_key now_slot seq event
          e
