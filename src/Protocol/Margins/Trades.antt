-- ===== src/Protocol/Margins/Trades.antt =====
-- The instructions on positions leave a position at exactly the margin of its notional, whatever the
-- ledgers hold.
use fructus.Base.{
  ℕ, ◌-◌, ◌≤◌, ◌<◌, ◌≡◌, subst, not, Option, none, some, List, [], ◌∷◌, arith, ◌==◌, if◌then◌else◌,
  u64_size,
}
use fructus.Errors.{Result, ok, FructusError, >>=-eq-ok}
use fructus.Errors.Steps.{ok-injective, require-eq-ok}
use fructus.Constants.{max_margin_bps}
use fructus.Exchange.{AccountInfo, ExchangeRate, read_stake_pool}
use fructus.State.{OrderBook, PerpMarket, Position, UserCollateral}
use fructus.Positions.{validate_open_args}
use fructus.Positions.Margin.{margin_of}
use fructus.Orderbook.{Side, OrderKind, Order, Fill, MatchOutcome, Book}
use fructus.Orderbook.Engine.{match_order, opposite}
use fructus.Adapter.Books.{side_to_u8, side_from_u8, load_book, take_next_seq}
use fructus.Adapter.Events.{emit_fill_events}
use fructus.Adapter.Takers.{match_open_taker}
use fructus.Adapter.Fills.{open_sums, is_closed, apply_open_fills, close_sum, apply_close_fills}
use fructus.Adapter.Fills.Margin.{reserve_margin-Reserved, release_margin-Reserved}
use fructus.Handlers.Runtime.{PdaAccount, pristine, foreign, owned, create_or_load, existing_ledger}
use fructus.Handlers.Orders.{persist}
use fructus.Handlers.Lifecycle.{
  Trading, settle_open_fills, open_position, live_position, settle_close_fills, finish_close,
  close_position,
}
use fructus.Handlers.Lifecycle.Closing.{live_position-owned}

-- The notional is a `u64`, and the collateral its margin.
abbrev pub AtMargin : ℕ → Position → Type 0
AtMargin bps p = (p.notional < u64_size) × (p.collateral ≡ margin_of p.notional bps)

-- The position in the account, if there is one, is at its margin.
abbrev pub IsMargined : ℕ → PdaAccount → Type 0
IsMargined bps pristine = Unit
IsMargined bps (foreign has_data) = Unit
IsMargined bps (owned p) = AtMargin bps p

pub create_or_load-AtMargin :
    (bps : ℕ) (account : PdaAccount) {p : Position}
    → IsMargined bps account
    → create_or_load account ≡ ok p
    → AtMargin bps p
unfolding create_or_load
create_or_load-AtMargin bps pristine m e =
    subst (AtMargin bps) (ok-injective e) (omega arith, omega arith)
create_or_load-AtMargin bps (foreign has_data) m e = cc
create_or_load-AtMargin bps (owned p) m e = subst (AtMargin bps) (ok-injective e) m

pub apply_open_fills-AtMargin :
    (p : Position) (u : UserCollateral) (bps : ℕ) (fs : List Fill) (n d slot es : ℕ)
    {r : Position × UserCollateral}
    → bps ≤ max_margin_bps
    → AtMargin bps p
    → apply_open_fills p u bps fs n d slot es ≡ ok r
    → AtMargin bps r.0
unfolding apply_open_fills
apply_open_fills-AtMargin p u bps [] n d slot es h m e =
    subst (λ x. AtMargin bps x.0) (ok-injective e) m
apply_open_fills-AtMargin p u bps (f ∷ fs) n d slot es h m e =
    let (sums, h1, e1) =
      >>=-eq-ok
        (open_sums n d (f ∷ fs) 0 (if is_closed p then 0 else p.entry_n_sum)
          (if is_closed p then 0 else p.entry_d_sum))
        _ e in
    let (k, k1, k2, k3) = reserve_margin-Reserved p u bps sums slot es h e1 in
    (omega (arith, k2, k3), k.backed)

apply_close_fills-AtMargin :
    (p : Position) (u : UserCollateral) (bps : ℕ) (fs : List Fill) {r : Position × UserCollateral}
    → bps ≤ max_margin_bps
    → AtMargin bps p
    → apply_close_fills p u bps fs ≡ ok r
    → AtMargin bps r.0
unfolding apply_close_fills
apply_close_fills-AtMargin p u bps [] h m e = subst (λ x. AtMargin bps x.0) (ok-injective e) m
apply_close_fills-AtMargin p u bps (f ∷ fs) h m e =
    let (delta, h1, e1) = >>=-eq-ok (close_sum (f ∷ fs) 0) _ e in
    let (k, k1, k2, k3) = release_margin-Reserved p u bps delta m.0 h e1 in
    (omega (arith, k1, m.0), k.backed)

settle_open_fills-IsMargined :
    (market : PerpMarket) (market_key owner : ℕ) (side : Side) (bump : ℕ) (account : PdaAccount)
    (collateral : Option UserCollateral) (rate : ExchangeRate) (now_slot : ℕ) (fs : List Fill)
    {r : PdaAccount × Option UserCollateral}
    → market.initial_margin_bps ≤ max_margin_bps
    → IsMargined market.initial_margin_bps account
    → settle_open_fills market market_key owner side bump account collateral rate now_slot fs ≡ ok r
    → IsMargined market.initial_margin_bps r.0
unfolding settle_open_fills
settle_open_fills-IsMargined market market_key owner side bump account collateral rate now_slot [] h
      m e =
    subst (λ x. IsMargined market.initial_margin_bps x.0) (ok-injective e) m
settle_open_fills-IsMargined market market_key owner side bump account collateral rate now_slot
      (f ∷ fs) h m e =
    let bps : ℕ = market.initial_margin_bps in
    let (position, h1, e1) = >>=-eq-ok (create_or_load account) _ e in
    let (ledger, h2, e2) = >>=-eq-ok (existing_ledger collateral) _ e1 in
    let opened : Position = record position {
      bump = bump;
      market = market_key;
      owner = owner;
      side = side_to_u8 side;
    } in
    let (applied, h3, e3) =
      >>=-eq-ok
        (apply_open_fills opened ledger bps (f ∷ fs) rate.total_lamports rate.pool_token_supply
          now_slot market.funding_epoch_slots)
        _ e2 in
    subst (λ x. IsMargined bps x.0) (ok-injective e3)
      (apply_open_fills-AtMargin opened ledger bps (f ∷ fs) rate.total_lamports
        rate.pool_token_supply now_slot market.funding_epoch_slots h
        (create_or_load-AtMargin bps account m h1) h3)

pub open_position-IsMargined :
    (market : PerpMarket) (market_key : ℕ) (t : Trading) (index_source : AccountInfo)
    (owner bump now_slot side size price : ℕ) {t' : Trading}
    → market.initial_margin_bps ≤ max_margin_bps
    → IsMargined market.initial_margin_bps t.position
    → open_position market market_key t index_source owner bump now_slot side size price ≡ ok t'
    → IsMargined market.initial_margin_bps t'.position
unfolding open_position
open_position-IsMargined market market_key t index_source owner bump now_slot side size price h m
      e =
    let (x, h1, e1) = >>=-eq-ok (validate_open_args side size) _ e in
    let (parsed, h2, e2) = >>=-eq-ok (side_from_u8 side) _ e1 in
    let (rate, h3, e3) = >>=-eq-ok (read_stake_pool index_source) _ e2 in
    let (taken, h4, e4) = >>=-eq-ok (take_next_seq (load_book t.order_book)) _ e3 in
    let incoming : Order = record {
      owner = owner;
      side = parsed;
      price = price;
      size = size;
      seq = taken.1;
    } in
    let (matched, h5, e5) =
      >>=-eq-ok
        (match_open_taker t.order_book taken.0 incoming rate.total_lamports rate.pool_token_supply)
        _ e4 in
    let (settled, h6, e6) =
      >>=-eq-ok
        (settle_open_fills market market_key owner parsed bump t.position t.user_collateral rate
          now_slot matched.2)
        _ e5 in
    let (saved, h7, e7) = >>=-eq-ok (persist matched.0 matched.1 now_slot) _ e6 in
    subst (λ x. IsMargined market.initial_margin_bps x.position) (ok-injective e7)
      (settle_open_fills-IsMargined market market_key owner parsed bump t.position t.user_collateral
        rate now_slot matched.2 h m h6)

settle_close_fills-IsMargined :
    (market : PerpMarket) (p : Position) (collateral : Option UserCollateral) (fs : List Fill)
    {r : PdaAccount × Option UserCollateral}
    → market.initial_margin_bps ≤ max_margin_bps
    → AtMargin market.initial_margin_bps p
    → settle_close_fills market p collateral fs ≡ ok r
    → IsMargined market.initial_margin_bps r.0
unfolding settle_close_fills
settle_close_fills-IsMargined market p collateral [] h m e =
    subst (λ x. IsMargined market.initial_margin_bps x.0) (ok-injective e) m
settle_close_fills-IsMargined market p none (f ∷ fs) h m e = cc
settle_close_fills-IsMargined market p (some u) (f ∷ fs) h m e =
    let (applied, h1, e1) =
      >>=-eq-ok (apply_close_fills p u market.initial_margin_bps (f ∷ fs)) _ e in
    subst (λ x. IsMargined market.initial_margin_bps x.0) (ok-injective e1)
      (apply_close_fills-AtMargin p u market.initial_margin_bps (f ∷ fs) h m h1)

finish_close-IsMargined :
    (market : PerpMarket) (t : Trading) (position : Position) (parsed : Side) (rate : ExchangeRate)
    (now_slot : ℕ) (book : Book) (outcome : MatchOutcome) {t' : Trading}
    → market.initial_margin_bps ≤ max_margin_bps
    → AtMargin market.initial_margin_bps position
    → finish_close market t position parsed rate now_slot (book, outcome) ≡ ok t'
    → IsMargined market.initial_margin_bps t'.position
unfolding finish_close
finish_close-IsMargined market t position parsed rate now_slot book outcome h m e =
    let emitted : Result (Unit {0}) × OrderBook =
      emit_fill_events t.order_book outcome.fills parsed rate.total_lamports
        rate.pool_token_supply in
    let (x, h6, e6) = >>=-eq-ok emitted.0 _ e in
    let (settled, h7, e7) =
      >>=-eq-ok (settle_close_fills market position t.user_collateral outcome.fills) _ e6 in
    let (saved, h8, e8) = >>=-eq-ok (persist emitted.1 book now_slot) _ e7 in
    subst (λ x. IsMargined market.initial_margin_bps x.position) (ok-injective e8)
      (settle_close_fills-IsMargined market position t.user_collateral outcome.fills h m h7)

pub close_position-IsMargined :
    (market : PerpMarket) (t : Trading) (index_source : AccountInfo) (owner now_slot side size : ℕ)
    {t' : Trading}
    → market.initial_margin_bps ≤ max_margin_bps
    → IsMargined market.initial_margin_bps t.position
    → close_position market t index_source owner now_slot side size ≡ ok t'
    → IsMargined market.initial_margin_bps t'.position
unfolding close_position
close_position-IsMargined market t index_source owner now_slot side size h m e =
    let (h1, e1) = require-eq-ok (not (size == 0)) FructusError.invalid_size _ e in
    let (parsed, h2, e2) = >>=-eq-ok (side_from_u8 side) _ e1 in
    let (rate, h3, e3) = >>=-eq-ok (read_stake_pool index_source) _ e2 in
    let (position, h4, e4) = >>=-eq-ok (live_position t.position size) _ e3 in
    let (taken, h5, e5) = >>=-eq-ok (take_next_seq (load_book t.order_book)) _ e4 in
    let incoming : Order = record {
      owner = owner;
      side = opposite parsed;
      price = 0;
      size = size;
      seq = taken.1;
    } in
    let m1 : IsMargined market.initial_margin_bps (owned position) =
      subst (IsMargined market.initial_margin_bps) (live_position-owned t.position size h4) m in
    let (book, outcome) = match_order taken.0 incoming OrderKind.market (u64_size - 1) in
    finish_close-IsMargined market t position parsed rate now_slot book outcome h m1 e5
