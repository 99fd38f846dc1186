-- ===== src/Protocol/Genesis.antt =====
-- The system from its start: the market and the book that the program initializes.
use fructus.Base.{ℕ, ◌≤◌, ◌≡◌, refl, subst, [], arith}
use fructus.Errors.{ok, >>=-eq-ok, FructusError}
use fructus.Errors.Steps.{ok-injective, require-eq-ok}
use fructus.Exchange.{AccountInfo, read_stake_pool}
use fructus.Constants.{max_margin_bps}
use fructus.State.{
  OrderBook, PerpMarket, funding_k_in_bounds, max_funding_in_bounds, initial_margin_in_bounds,
  maintenance_margin_in_bounds,
}
use fructus.Adapter.Books.{load_book}
use fructus.Handlers.Runtime.{Runtime, pristine}
use fructus.Handlers.Vault.{Transfer}
use fructus.Handlers.Vault.Backing.{Moves}
use fructus.Handlers.Oracle.{MarketParams, initialize_market}
use fructus.Handlers.Genesis.{initialize_order_book}
use fructus.Protocol.{Protocol, Reachable}
use fructus.Protocol.Margins.{AllMargined, Reachable-AllMargined}
use fructus.Protocol.Solvency.{IsSolvent, Reachable-IsSolvent}
use fructus.Protocol.Orderly.{Reachable-IsKept}
use fructus.Protocol.Orderly.Kept.{IsKept}

-- A new market with its book, its vault empty, and no position or ledger created.
abbrev pub genesis : ℕ → PerpMarket → OrderBook → Protocol
genesis market_key market order_book = record {
  market_key = market_key;
  market = market;
  vault = 0;
  order_book = order_book;
  positions = λ key. pristine;
  ledgers = [];
}

initialize_market-fresh :
    (rt : Runtime) (authority bump source_key : ℕ) (index_source : AccountInfo) (p : MarketParams)
    {market : PerpMarket}
    → initialize_market rt authority bump source_key index_source p ≡ ok market
    → (market.pnl_pool ≡ 0) × (market.initial_margin_bps ≤ max_margin_bps)
unfolding initialize_market initial_margin_in_bounds
initialize_market-fresh rt authority bump source_key index_source p e =
    let (h1, e1) =
      require-eq-ok (funding_k_in_bounds p.funding_k) FructusError.invalid_funding_k _ e in
    let (h2, e2) =
      require-eq-ok (max_funding_in_bounds p.max_funding) FructusError.invalid_max_funding _ e1 in
    let (h3, e3) =
      require-eq-ok (initial_margin_in_bounds p.initial_margin_bps)
        FructusError.invalid_initial_margin _ e2 in
    let (h4, e4) =
      require-eq-ok (maintenance_margin_in_bounds p.initial_margin_bps p.maintenance_margin_bps)
        FructusError.invalid_maintenance_margin _ e3 in
    let (rate, h5, e5) = >>=-eq-ok (read_stake_pool index_source) _ e4 in
    subst (λ m. (m.pnl_pool ≡ 0) × (m.initial_margin_bps ≤ max_margin_bps)) (ok-injective e5)
      (refl, ground arith)

initialize_order_book-IsKept :
    (market_key bump : ℕ) {book : OrderBook}
    → initialize_order_book market_key bump ≡ ok book
    → IsKept book
unfolding initialize_order_book load_book
initialize_order_book-IsKept market_key bump e = subst IsKept (ok-injective e) (record {
  orderly = record {
    bid_side = record { resting = tt; bounded = omega arith };
    ask_side = record { resting = tt; bounded = omega arith };
    uncrossed = tt;
  };
  bid_slots = refl;
  ask_slots = refl;
  ring = refl;
})

-- From the market and the book that `initialize_market` and `initialize_order_book` create, any number of
-- instructions of any users, in any order, keeps the program solvent, the book well-formed and every
-- position at exactly the margin of its notional, if the token program moves what it is asked to.
pub genesis_safe :
    {rt : Runtime} {transfer : Transfer} (authority bump source_key : ℕ)
    (index_source : AccountInfo) (p : MarketParams) (market_key book_bump : ℕ) {market : PerpMarket}
    {book : OrderBook} {s : Protocol}
    → Moves transfer
    → initialize_market rt authority bump source_key index_source p ≡ ok market
    → initialize_order_book market_key book_bump ≡ ok book
    → Reachable rt transfer (genesis market_key market book) s
    → IsSolvent s × IsKept s.order_book × AllMargined s
genesis_safe {rt} authority bump source_key index_source p market_key book_bump moves e e1 reach =
    let (empty, ratio) = initialize_market-fresh rt authority bump source_key index_source p e in
    (
      Reachable-IsSolvent moves (omega (arith, empty)) reach,
      Reachable-IsKept (initialize_order_book-IsKept market_key book_bump e1) reach,
      Reachable-AllMargined (record { ratio = ratio; margined = λ key. tt }) reach,
    )
