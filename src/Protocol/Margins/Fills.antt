-- ===== src/Protocol/Margins/Fills.antt =====
-- settle_fill and reset_position leave a position at exactly the margin of its notional, whatever the
-- ledgers hold.
use fructus.Base.{ℕ, ◌≤◌, ◌≡◌, subst, Option, none, some, [], ◌∷◌, arith, ◌==◌}
use fructus.Errors.{ok, FructusError, >>=-eq-ok}
use fructus.Errors.Steps.{ok-injective, require-eq-ok}
use fructus.Constants.{max_margin_bps}
use fructus.State.{OutEvent, PerpMarket, Position}
use fructus.Adapter.Books.{side_from_u8}
use fructus.Adapter.Events.{settle_event}
use fructus.Adapter.Fills.{apply_open_fills}
use fructus.Handlers.Runtime.{
  Runtime, PdaAccount, pristine, foreign, owned, create_or_load, existing_ledger,
  verify_maker_accounts,
}
use fructus.Handlers.Lifecycle.{Trading, fill_of, settle_pending, settle_fill, reset_position}
use fructus.Protocol.Margins.Trades.{IsMargined, create_or_load-AtMargin, apply_open_fills-AtMargin}

settle_pending-IsMargined :
    (rt : Runtime) (market : PerpMarket) (market_key : ℕ) (t : Trading)
    (position_key collateral_key now_slot seq : ℕ) (event : OutEvent) {t' : Trading}
    → market.initial_margin_bps ≤ max_margin_bps
    → IsMargined market.initial_margin_bps t.position
    → settle_pending rt market market_key t position_key collateral_key now_slot seq event ≡ ok t'
    → IsMargined market.initial_margin_bps t'.position
unfolding settle_pending
settle_pending-IsMargined rt market market_key t position_key collateral_key now_slot seq event h m
      e =
    let bps : ℕ = market.initial_margin_bps in
    let (bump, h0, e1) =
      >>=-eq-ok (verify_maker_accounts rt market_key event position_key collateral_key) _ e in
    let (ledger, h1, e2) = >>=-eq-ok (existing_ledger t.user_collateral) _ e1 in
    let (position, h2, e3) = >>=-eq-ok (create_or_load t.position) _ e2 in
    let opened : Position = record position {
      bump = bump;
      market = market_key;
      owner = event.owner;
      side = event.side;
    } in
    let (applied, h3, e4) =
      >>=-eq-ok
        (apply_open_fills opened ledger bps (fill_of event ∷ []) event.entry_total_lamports
          event.entry_pool_token_supply now_slot market.funding_epoch_slots)
        _ e3 in
    subst (λ x. IsMargined bps x.position) (ok-injective e4)
      (apply_open_fills-AtMargin opened ledger bps (fill_of event ∷ []) event.entry_total_lamports
        event.entry_pool_token_supply now_slot market.funding_epoch_slots h
        (create_or_load-AtMargin bps t.position m h2) h3)

pub settle_fill-IsMargined :
    (rt : Runtime) (market : PerpMarket) (market_key : ℕ) (t : Trading)
    (position_key collateral_key now_slot seq : ℕ) {t' : Trading}
    → market.initial_margin_bps ≤ max_margin_bps
    → IsMargined market.initial_margin_bps t.position
    → settle_fill rt market market_key t position_key collateral_key now_slot seq ≡ ok t'
    → IsMargined market.initial_margin_bps t'.position
unfolding settle_fill
settle_fill-IsMargined rt market market_key t position_key collateral_key now_slot seq {t'} h m e =
    let (found, h1, e1) = >>=-eq-ok (settle_event t.order_book seq) _ e in by_found found e1
  where
    by_found :
        (found : Option OutEvent)
        → elim found [
          | none ↦ ok t
          | some event ↦
              settle_pending rt market market_key t position_key collateral_key now_slot seq event
        ]
          ≡ ok t'
        → IsMargined market.initial_margin_bps t'.position
    by_found none e =
        subst (λ x. IsMargined market.initial_margin_bps x.position) (ok-injective e) m
    by_found (some event) e =
        settle_pending-IsMargined rt market market_key t position_key collateral_key now_slot seq
          event h m e

pub reset_position-IsMargined :
    (bps : ℕ) (account : PdaAccount) (side : ℕ) {account' : PdaAccount}
    → reset_position account side ≡ ok account'
    → IsMargined bps account'
unfolding reset_position
reset_position-IsMargined bps pristine side e =
    let (x, h, e1) = >>=-eq-ok (side_from_u8 side) _ e in cc
reset_position-IsMargined bps (foreign has_data) side e =
    let (x, h, e1) = >>=-eq-ok (side_from_u8 side) _ e in cc
reset_position-IsMargined bps (owned p) side e =
    let (x, h, e1) = >>=-eq-ok (side_from_u8 side) _ e in
    let (h1, e2) = require-eq-ok (p.notional == 0) FructusError.position_not_found _ e1 in
    subst (IsMargined bps) (ok-injective e2) (omega arith, omega arith)
