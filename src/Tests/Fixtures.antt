-- ===== src/Tests/Fixtures.antt =====
-- The accounts on which the examples run: a stake pool at 1.25, a market, and a book with a bid at 90 and
-- an ask at 110.
use fructus.Base.{◌-◌, ◌+◌, leb, if◌then◌else◌, refl, [], ◌∷◌, ◌++◌, arith, replicate, length}
use fructus.Int.{pos}
use fructus.Errors.{Result, Error, ok, err}
use fructus.Exchange.{AccountInfo, stake_pool_program_id}
use fructus.State.{OrderBook, PerpMarket, Position, UserCollateral, default_order_book, empty_order}
use fructus.Orderbook.Engine.Orderly.{IsOrderly}
use fructus.Adapter.Books.{load_book}
use fructus.Handlers.Runtime.{Runtime}
use fructus.Handlers.Vault.{Transfer}

-- The result of a run, and a default where it failed.
abbrev pub value_of {ℓ} : {A : Type ℓ} → Result A → A → A
value_of (ok a) d = a
value_of (err e) d = d

-- 1250 lamports to 1000 tokens, in the layout of the stake pool program.
abbrev pub pool : AccountInfo
pool = record {
  owner = stake_pool_program_id;
  bytes = 1 ∷ replicate 257 0 ++ (226 ∷ 4 ∷ replicate 6 0) ++ (232 ∷ 3 ∷ replicate 6 0);
}

abbrev pub runtime : Runtime
runtime = record { find_program_address = λ seeds. (length seeds, 255); as_ref = λ key. key ∷ [] }

abbrev pub market : PerpMarket
market = record {
  index_source = 5;
  collateral_mint = 6;
  funding_k = 1000;
  max_funding = 1000;
  funding_epoch_slots = 100;
  initial_margin_bps = 2000;
  maintenance_margin_bps = 1000;
  authority = 9;
  vault = 4;
  funding_epoch = 0;
  index_n = 1200;
  index_d = 1000;
  funding_accumulator = pos 0;
  pnl_pool = 500;
  bump = 255;
}

abbrev pub account : OrderBook
account = record default_order_book {
  next_seq = 10;
  bids =
      record { owner = 2; price = 90; size = 50; seq = 4; active = 1 } ∷ replicate 15 empty_order;
  asks =
      record { owner = 3; price = 110; size = 60; seq = 5; active = 1 } ∷ replicate 15 empty_order;
}

pub account-IsOrderly : IsOrderly (load_book account)
unfolding load_book
account-IsOrderly = record {
  bid_side = record {
    resting = (
      record { sided = refl; priced = omega arith; sized = omega arith; older = omega arith },
      tt,
    );
    bounded = omega arith;
  };
  ask_side = record {
    resting = (
      record { sided = refl; priced = omega arith; sized = omega arith; older = omega arith },
      tt,
    );
    bounded = omega arith;
  };
  uncrossed = ((omega arith, tt), tt);
}

-- A ledger with a deposit of 1000, of which 40 are in reserve.
abbrev pub ledger : UserCollateral
ledger = record { deposited = 1000; reserved = 40; claimable = 30; bump = 254 }

-- A long of 200, at 1000 lamports to 1000 tokens, that holds its margin of 40.
abbrev pub position : Position
position = record {
  market = 8;
  owner = 1;
  side = 0;
  notional = 200;
  entry_n_sum = 200_000;
  entry_d_sum = 200_000;
  collateral = 40;
  last_funding_epoch = 1;
  closed_notional = 0;
  closed_entry_n_sum = 0;
  closed_entry_d_sum = 0;
  open_slot = 3;
  bump = 255;
}

-- A token program that moves what a balance covers.
abbrev pub transfer : Transfer
transfer from to amount =
    if leb amount from then ok (from - amount, to + amount) else err Error.invalid_account_data
