-- ===== src/Tests/Trades.antt =====
-- The instructions on positions and ledgers at concrete accounts.
use fructus.Base.{◌+◌, ◌≤◌, ◌≡◌, refl, subst, false, some, List, [], ◌∷◌, arith, replicate}
use fructus.Errors.{ok}
use fructus.Errors.Steps.{ok-injective}
use fructus.Exchange.{AccountInfo}
use fructus.State.{OrderBook, OutEvent, Position, UserCollateral, empty_event, empty_observation}
use fructus.Orderbook.{Fill, total_size}
use fructus.Orderbook.Engine.Orderly.{IsOrderly}
use fructus.Adapter.Books.{load_book}
use fructus.Adapter.Fills.{apply_open_fills, apply_close_fills}
use fructus.Adapter.Fills.Margin.{
  Covered, Reserved, apply_open_fills-Covered, apply_close_fills-Covered,
}
use fructus.Handlers.Runtime.{PdaAccount, pristine, owned, create_or_load}
use fructus.Handlers.Lifecycle.{Trading, open_position, close_position, settle_pending, settle_fill}
use fructus.Adapter.Events.Writes.{Writes}
use fructus.Handlers.Lifecycle.Preservation.{AllCovered, open_position_safe}
use fructus.Handlers.Lifecycle.Closing.{close_position_safe}
use fructus.Handlers.Settling.{Books, settle_close, settle_funding}
use fructus.Handlers.Settling.Conservation.{Untouched}
use fructus.Handlers.Settling.Once.{Realized, Charged, settle_close_once, settle_funding_once}
use fructus.Handlers.Liquidating.{Parties, liquidate}
use fructus.Handlers.Liquidating.Safety.{Liquidated, liquidate-Liquidated}
use fructus.Handlers.Vault.{Custody, ledger_or_fresh, withdraw_collateral}
use fructus.Handlers.Vault.Backing.{owed, Moves, withdraw_collateral_backed}
use fructus.Protocol.{Protocol, start, with_trading}
use fructus.Protocol.Margins.{Reachable-Liquidated}
use fructus.Tests.Fixtures.{
  value_of, transfer, pool, runtime, market, account, account-IsOrderly, ledger, position,
}

position-Covered : Covered 2000 position ledger
position-Covered = record {
  notional_u64 = omega arith;
  at_margin = refl;
  within_deposit = omega arith;
}

abbrev fills : List Fill
fills =
    record { maker_seq = 4; maker_owner = 2; taker_owner = 1; size = 50; price = 90 }
    ∷ record { maker_seq = 6; maker_owner = 2; taker_owner = 1; size = 20; price = 80 }
    ∷ []

abbrev opened_fills : Position × UserCollateral
opened_fills =
    value_of (apply_open_fills position ledger 2000 fills 1250 1000 20 100) (position, ledger)

opened_fills-ok : apply_open_fills position ledger 2000 fills 1250 1000 20 100 ≡ ok opened_fills
unfolding apply_open_fills fructus.Positions.accumulate_entry fructus.Positions.margin_required
    fructus.Collateral.free_collateral
opened_fills-ok = refl

apply_open_fills-Covered_example :
    Covered 2000 opened_fills.0 opened_fills.1
    × Reserved 2000 position ledger opened_fills.0 opened_fills.1
    × (opened_fills.0.notional ≡ position.notional + total_size fills)
apply_open_fills-Covered_example =
    apply_open_fills-Covered position ledger 2000 fills 1250 1000 20 100 (omega arith)
      position-Covered opened_fills-ok

abbrev closed_fills : Position × UserCollateral
closed_fills = value_of (apply_close_fills position ledger 2000 fills) (position, ledger)

closed_fills-ok : apply_close_fills position ledger 2000 fills ≡ ok closed_fills
unfolding apply_close_fills fructus.Positions.margin_required
    fructus.Positions.accumulate_closed_entry
closed_fills-ok = refl

apply_close_fills-Covered_example :
    Covered 2000 closed_fills.0 closed_fills.1
    × Reserved 2000 position ledger closed_fills.0 closed_fills.1
    × (closed_fills.0.notional + total_size fills ≡ position.notional)
    × (closed_fills.0.closed_notional ≡ position.closed_notional + total_size fills)
apply_close_fills-Covered_example =
    apply_close_fills-Covered position ledger 2000 fills (omega arith) position-Covered
      closed_fills-ok

abbrev trading : Trading
trading = record { order_book = account; position = owned position; user_collateral = some ledger }

trading-AllCovered : AllCovered 2000 (owned position) (some ledger)
unfolding create_or_load
trading-AllCovered p h = subst (λ x. Covered 2000 x ledger) (ok-injective h) position-Covered

-- A long of 70 more: 60 against the ask, and 10 that rest.
abbrev opened : Trading
opened = value_of (open_position market 8 trading pool 1 255 20 0 70 115) trading

opened-ok : open_position market 8 trading pool 1 255 20 0 70 115 ≡ ok opened
unfolding open_position fructus.Positions.validate_open_args fructus.Adapter.Books.side_from_u8
    fructus.Exchange.read_stake_pool fructus.Exchange.stake_pool_program_id
    fructus.Adapter.Books.take_next_seq load_book fructus.Adapter.Takers.match_open_taker
    fructus.Orderbook.would_cross fructus.Adapter.Events.emit_fill_events
    fructus.Orderbook.Engine.match_order fructus.Orderbook.Engine.own_side
    fructus.Orderbook.Engine.post_limit create_or_load apply_open_fills
    fructus.Positions.accumulate_entry fructus.Positions.margin_required
    fructus.Collateral.free_collateral fructus.Adapter.Books.save_book
    fructus.Handlers.Orders.persist
opened-ok = refl

open_position_safe_example :
    IsOrderly (load_book opened.order_book) × AllCovered 2000 opened.position opened.user_collateral
open_position_safe_example =
    open_position_safe market 8 trading pool 1 255 20 0 70 115 (omega arith) account-IsOrderly
      trading-AllCovered opened-ok

-- 50 of 150 are closed against the bid.
abbrev closed : Trading
closed = value_of (close_position market trading pool 1 20 0 150) trading

closed-ok : close_position market trading pool 1 20 0 150 ≡ ok closed
unfolding close_position fructus.Adapter.Books.side_from_u8 fructus.Exchange.read_stake_pool
    fructus.Exchange.stake_pool_program_id fructus.Adapter.Books.take_next_seq load_book
    fructus.Adapter.Events.emit_fill_events fructus.Orderbook.Engine.match_order apply_close_fills
    fructus.Positions.margin_required fructus.Positions.accumulate_closed_entry
    fructus.Handlers.Orders.persist fructus.Adapter.Books.save_book
closed-ok = refl

close_position_safe_example :
    IsOrderly (load_book closed.order_book) × AllCovered 2000 closed.position closed.user_collateral
close_position_safe_example =
    close_position_safe market trading pool 1 20 0 150 (omega arith) account-IsOrderly
      trading-AllCovered closed-ok

abbrev maker_event : OutEvent
maker_event = record empty_event {
  size = 60;
  price = 110;
  owner = 1;
  counterparty = 3;
  entry_total_lamports = 1250;
  entry_pool_token_supply = 1000;
}

abbrev booked : Trading
booked = value_of (settle_pending runtime market 8 trading 4 3 20 0 maker_event) trading

booked-ok : settle_pending runtime market 8 trading 4 3 20 0 maker_event ≡ ok booked
unfolding settle_pending fructus.Handlers.Runtime.verify_maker_accounts create_or_load
    apply_open_fills fructus.Positions.accumulate_entry fructus.Positions.margin_required
    fructus.Collateral.free_collateral
booked-ok = refl

-- The fill of a maker with no position yet waits on the ring.
abbrev waiting : OrderBook
waiting = record account { event_write_cursor = 1; events = maker_event ∷ replicate 31 empty_event }

abbrev pending : Trading
pending = record { order_book = waiting; position = pristine; user_collateral = some ledger }

abbrev settled : Trading
settled = value_of (settle_fill runtime market 8 pending 4 3 25 0) pending

-- The state in which the fill waits, the one in which it is settled, and the one in which a crank has then drained
-- its event.
abbrev waiting_state : Protocol
waiting_state = record {
  market_key = 8;
  market = market;
  vault = 5000;
  order_book = waiting;
  positions = λ key. pristine;
  ledgers = (3, ledger) ∷ [];
}

abbrev drained : OrderBook
drained = record settled.order_book { event_read_cursor = 1 }

abbrev drained_state : Protocol
drained_state = record (with_trading waiting_state 4 3 settled) { order_book = drained }

-- 100 are closed, at 1000 lamports to 1000 tokens.
abbrev books : Books
books = record {
  market = market;
  position = record position {
    closed_notional = 100;
    closed_entry_n_sum = 100_000;
    closed_entry_d_sum = 100_000;
  };
  user_collateral = ledger;
}

abbrev realized : Books
realized = value_of (settle_close runtime 8 books 3 pool) books

realized-ok : settle_close runtime 8 books 3 pool ≡ ok realized
unfolding settle_close fructus.Positions.from_side_u8 fructus.Handlers.Runtime.verify_collateral_pda
    fructus.Exchange.read_stake_pool fructus.Exchange.stake_pool_program_id fructus.Positions.pnl
    fructus.Settlement.settle_signed
realized-ok = refl

settle_close_once_example :
    Untouched books realized
    × Realized books pool realized
    × (realized.position.closed_notional ≡ 0)
    × (settle_close runtime 8 realized 3 pool ≡ ok realized)
settle_close_once_example = settle_close_once runtime 8 books 3 pool pool (omega arith) realized-ok

-- Three epochs are due.
abbrev funded : Books
funded = value_of (settle_funding runtime 8 books 3 account pool 450) books

funded-ok : settle_funding runtime 8 books 3 account pool 450 ≡ ok funded
unfolding settle_funding fructus.Positions.from_side_u8
    fructus.Handlers.Runtime.verify_collateral_pda fructus.Funding.funding_epoch
    fructus.Exchange.read_stake_pool fructus.Exchange.stake_pool_program_id
    fructus.Exchange.realized_yield fructus.Exchange.annualize fructus.Settlement.settle_signed
    fructus.Funding.funding_payment fructus.Funding.funding_rate fructus.Funding.premium
    fructus.Orderbook.mid load_book fructus.Funding.from_position_side
funded-ok = refl

-- The third epoch lasts from slot 400 on.
settle_funding_once_example :
    Untouched books funded
    × Charged books account pool 450 funded
    × (settle_funding runtime 8 funded 3 account pool 470 ≡ ok funded)
settle_funding_once_example =
    settle_funding_once runtime 8 books 3 account account pool pool 450 470 (omega arith)
      (omega arith) funded-ok

-- The account with one observation, of slot 20.
abbrev observed : OrderBook
observed = record account {
  observations =
      record { slot = 20; mid = 100; cumulative_mid = 0 } ∷ replicate 15 empty_observation;
}

-- A short of 200 from 1000 lamports to 1000 tokens has lost more than its margin.
abbrev parties : Parties
parties = record {
  market = market;
  position = record position { side = 1 };
  user_collateral = ledger;
  liquidator_collateral = record ledger { reserved = 0 };
}

abbrev liquidated : Parties
liquidated = value_of (liquidate runtime 8 parties 3 observed pool 20 100) parties

liquidated-ok : liquidate runtime 8 parties 3 observed pool 20 100 ≡ ok liquidated
unfolding liquidate fructus.Positions.from_side_u8 fructus.Handlers.Runtime.verify_collateral_pda
    fructus.Orderbook.Twap.twap fructus.Adapter.Observations.engine_observations
    fructus.Exchange.read_stake_pool fructus.Exchange.stake_pool_program_id fructus.Positions.pnl
    fructus.Liquidation.liquidatable fructus.Positions.margin_required
    fructus.Liquidation.apply_liquidation fructus.Settlement.apply_liquidation_loss
liquidated-ok = refl

liquidate-Liquidated_example : Liquidated parties 100 liquidated
liquidate-Liquidated_example =
    liquidate-Liquidated runtime 8 parties 3 observed pool 20 100
      (record { notional_u64 = omega arith; ratio = omega arith; backed = refl }) liquidated-ok

-- The state in which the short is at every address and the ledger at the address 3.
abbrev exposed : Protocol
exposed = record {
  market_key = 8;
  market = market;
  vault = 5000;
  order_book = observed;
  positions = λ key. owned parties.position;
  ledgers = (3, ledger) ∷ (12, parties.liquidator_collateral) ∷ [];
}

Reachable-Liquidated_example : Liquidated parties 100 liquidated
Reachable-Liquidated_example =
    Reachable-Liquidated {rt = runtime} {transfer = transfer} {s = exposed} {t = exposed}
      (record { ratio = omega arith; margined = λ key. (omega arith, refl) }) start pool 4 3 20 100
      parties.position ledger parties.liquidator_collateral liquidated refl liquidated-ok

transfer-Moves : Moves transfer
transfer-Moves from to amount r e = ground arith

abbrev custody : Custody
custody = record { vault = 2000; user_ata = 500; ledger = some ledger; market = market }

abbrev withdrawn : Custody
withdrawn = value_of (withdraw_collateral transfer custody ledger false 900) custody

withdrawn-ok : withdraw_collateral transfer custody ledger false 900 ≡ ok withdrawn
unfolding withdraw_collateral fructus.Settlement.claim_payout fructus.Collateral.withdraw
withdrawn-ok = refl

withdraw_collateral_backed_example :
    (withdrawn.vault + 900 ≡ 2000)
    × (owed 254 withdrawn + 900 ≡ owed 254 custody)
    × (withdrawn.user_ata ≡ 500 + 900)
    × ((ledger_or_fresh 254 withdrawn.ledger).reserved ≡ ledger.reserved)
    × (ledger.reserved ≤ (ledger_or_fresh 254 withdrawn.ledger).deposited)
withdraw_collateral_backed_example =
    withdraw_collateral_backed transfer custody ledger false 900 transfer-Moves refl withdrawn-ok
