-- ===== src/Tests/System.antt =====
-- The system from its start: a deposit, an ask of another user, and a long opened against it.
use fructus.Base.{◌≡◌, refl, false, some, arith, ◌+◌, ◌-◌}
use fructus.Int.{pos}
use fructus.Errors.{ok}
use fructus.State.{OrderBook, PerpMarket, UserCollateral, default_order_book}
use fructus.Adapter.Books.{load_book}
use fructus.Handlers.Orders.{place_limit_order, crank}
use fructus.Handlers.Oracle.{MarketParams, initialize_market}
use fructus.Handlers.Genesis.{initialize_order_book}
use fructus.Handlers.Vault.{Custody, deposit_collateral, withdraw_collateral}
use fructus.Handlers.Vault.Backing.{Moves}
use fructus.Handlers.Lifecycle.{Trading, open_position}
use fructus.Protocol.{
  Protocol, custody_at, with_custody, trading_at, with_trading, placed_limit, deposited, opened,
  Reachable, start, next,
}
use fructus.Protocol.Margins.{AllMargined}
use fructus.Protocol.Solvency.{IsSolvent}
use fructus.Protocol.Orderly.Kept.{IsKept}
use fructus.Protocol.Payout.{Pays, withdraw_collateral_payable}
use fructus.Protocol.Genesis.{genesis, genesis_safe}
use fructus.Tests.Fixtures.{value_of, transfer, pool, runtime}

transfer-Moves : Moves transfer
transfer-Moves from to amount r e = ground arith

transfer-Pays : Pays transfer
transfer-Pays from to amount h k = ((from - amount, to + amount), ground arith)

abbrev params : MarketParams
params = record {
  collateral_mint = 6;
  funding_k = 100_000;
  max_funding = 1000;
  funding_epoch_slots = 100;
  initial_margin_bps = 2000;
  maintenance_margin_bps = 1000;
}

abbrev new_market : PerpMarket
new_market = record {
  index_source = 5;
  collateral_mint = 6;
  funding_k = 100_000;
  max_funding = 1000;
  funding_epoch_slots = 100;
  initial_margin_bps = 2000;
  maintenance_margin_bps = 1000;
  authority = 9;
  vault = 1;
  funding_epoch = 0;
  index_n = 0;
  index_d = 0;
  funding_accumulator = pos 0;
  pnl_pool = 0;
  bump = 255;
}

new_market-ok : initialize_market runtime 9 255 5 pool params ≡ ok new_market
unfolding initialize_market fructus.State.funding_k_in_bounds fructus.State.max_funding_in_bounds
    fructus.State.initial_margin_in_bounds fructus.State.maintenance_margin_in_bounds
    fructus.Exchange.read_stake_pool fructus.Exchange.stake_pool_program_id
new_market-ok = refl

abbrev new_book : OrderBook
new_book = record default_order_book { market = 8; bump = 254 }

new_book-ok : initialize_order_book 8 254 ≡ ok new_book
unfolding initialize_order_book
new_book-ok = refl

abbrev at_start : Protocol
at_start = genesis 8 new_market new_book

abbrev funded : Custody
funded = record {
  vault = 1000;
  user_ata = 4000;
  ledger = some (record { deposited = 1000; reserved = 0; claimable = 0; bump = 255 });
  market = new_market;
}

funded-ok : deposit_collateral transfer (custody_at at_start 3 5000) false 255 1000 ≡ ok funded
unfolding deposit_collateral fructus.Settlement.claim_payout fructus.Collateral.deposit
funded-ok = refl

abbrev with_funds : Protocol
with_funds = with_custody at_start 3 funded

abbrev asked : OrderBook
asked = value_of (place_limit_order new_book pool 2 10 1 110 60) new_book

asked-ok : place_limit_order new_book pool 2 10 1 110 60 ≡ ok asked
unfolding place_limit_order fructus.Adapter.Books.side_from_u8 fructus.Exchange.read_stake_pool
    fructus.Exchange.stake_pool_program_id fructus.Adapter.Books.take_next_seq load_book
    fructus.Orderbook.Engine.post_limit fructus.Adapter.Books.save_book
asked-ok = refl

abbrev with_ask : Protocol
with_ask = record with_funds { order_book = asked }

abbrev long : Trading
long =
    value_of (open_position new_market 8 (trading_at with_ask 4 3) pool 1 255 20 0 50 115)
      (trading_at with_ask 4 3)

long-ok : open_position new_market 8 (trading_at with_ask 4 3) pool 1 255 20 0 50 115 ≡ ok long
unfolding open_position place_limit_order fructus.Adapter.Books.side_from_u8
    fructus.Exchange.read_stake_pool fructus.Exchange.stake_pool_program_id
    fructus.Adapter.Books.take_next_seq load_book fructus.Orderbook.Engine.post_limit
    fructus.Adapter.Books.save_book fructus.Positions.validate_open_args
    fructus.Adapter.Takers.match_open_taker fructus.Orderbook.would_cross
    fructus.Adapter.Events.emit_fill_events fructus.Orderbook.Engine.match_order
    fructus.Orderbook.Engine.own_side fructus.Handlers.Runtime.create_or_load
    fructus.Adapter.Fills.apply_open_fills fructus.Positions.accumulate_entry
    fructus.Positions.margin_required fructus.Collateral.free_collateral
    fructus.Handlers.Orders.persist fructus.Handlers.Orders.place_limit
    fructus.Adapter.Observations.record_observation
long-ok = refl

abbrev with_long : Protocol
with_long = with_trading with_ask 4 3 long

funded-Reachable : Reachable runtime transfer at_start with_funds
funded-Reachable = next start (deposited at_start 1 5000 1000 false funded funded-ok)

long-Reachable : Reachable runtime transfer at_start with_long
long-Reachable =
    next (next funded-Reachable (placed_limit with_funds pool 2 10 1 110 60 asked asked-ok))
      (opened with_ask pool 1 20 0 50 115 long long-ok)

genesis_safe_example : IsSolvent with_long × IsKept with_long.order_book × AllMargined with_long
genesis_safe_example =
    genesis_safe 9 255 5 pool params 8 254 transfer-Moves new_market-ok new_book-ok long-Reachable

withdraw_collateral_payable_example :
    (c : Custody) × (withdraw_collateral transfer
        (custody_at with_funds 3 4000)
        (record { deposited = 1000; reserved = 0; claimable = 0; bump = 255 })
        false
        300
      ≡ ok c)
withdraw_collateral_payable_example =
    withdraw_collateral_payable transfer-Moves transfer-Pays (omega arith) funded-Reachable 1 4000
      300 (record { deposited = 1000; reserved = 0; claimable = 0; bump = 255 }) refl (omega arith)
      (omega arith) (omega arith) (omega arith)
