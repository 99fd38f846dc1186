-- ===== src/Protocol/Orderly.antt =====
-- No sequence of instructions leaves the book account malformed, and what users can always do with it.
pub mod Kept
pub mod Orders
pub mod Trades
use fructus.Base.{ℕ, ◌≡◌}
use fructus.State.{OrderBook}
use fructus.Handlers.Runtime.{Runtime, position_pda, collateral_pda}
use fructus.Handlers.Vault.{Transfer}
use fructus.Protocol.{
  Protocol, trading_at, Step, placed_limit, placed_market, cancelled, cranked, deposited, withdrawn,
  opened, closed, filled, reset, settled_close, settled_funding, liquidated, received, Reachable,
  start, next,
}
use fructus.Protocol.Orderly.Kept.{IsKept, KeptFrom, IsKept-KeptFrom, KeptFrom-IsKept}
use fructus.Protocol.Orderly.Orders.{
  place_limit_order-KeptFrom, place_market_order-KeptFrom, cancel_order-KeptFrom, crank-KeptFrom,
}
use fructus.Protocol.Orderly.Trades.{
  open_position-KeptFrom, close_position-KeptFrom, settle_fill-KeptFrom,
}

Step-KeptFrom :
    {origin : OrderBook} {rt : Runtime} {transfer : Transfer} {s t : Protocol}
    → Step rt transfer s t
    → KeptFrom origin s.order_book
    → KeptFrom origin t.order_book
Step-KeptFrom (placed_limit s index_source owner slot side price size book e) k =
    place_limit_order-KeptFrom s.order_book index_source owner slot side price size k e
Step-KeptFrom (placed_market s index_source owner slot side size book e) k =
    place_market_order-KeptFrom s.order_book index_source owner slot side size k e
Step-KeptFrom (cancelled s owner slot seq book e) k =
    cancel_order-KeptFrom s.order_book owner slot seq k e
Step-KeptFrom (cranked s index_source slot book e) k =
    crank-KeptFrom s.order_book index_source slot k e
Step-KeptFrom (deposited s user user_ata amount vault_is_empty c e) k = k
Step-KeptFrom (withdrawn s user user_ata amount vault_is_empty u c h e) k = k
Step-KeptFrom {rt = rt} (opened s index_source owner slot side size price t e) k =
    open_position-KeptFrom s.market s.market_key
      (trading_at s (position_pda rt s.market_key owner side).0
        (collateral_pda rt s.market_key owner).0)
      index_source owner (position_pda rt s.market_key owner side).1 slot side size price k e
Step-KeptFrom {rt = rt} (closed s index_source owner slot side size t e) k =
    close_position-KeptFrom s.market
      (trading_at s (position_pda rt s.market_key owner side).0
        (collateral_pda rt s.market_key owner).0)
      index_source owner slot side size k e
Step-KeptFrom {rt = rt} (filled s position_key collateral_key slot seq t e) k =
    settle_fill-KeptFrom rt s.market s.market_key (trading_at s position_key collateral_key)
      position_key collateral_key slot seq k e
Step-KeptFrom (reset s user side account e) k = k
Step-KeptFrom (settled_close s index_source position_key collateral_key p u b h h1 e) k = k
Step-KeptFrom (settled_funding s index_source position_key collateral_key slot p u b h h1 e) k = k
Step-KeptFrom
      (liquidated s index_source position_key collateral_key liquidator slot amount p u l q apart h
        h1 h2 e)
      k =
    k
Step-KeptFrom (received s amount) k = k

pub Reachable-KeptFrom :
    {origin : OrderBook} {rt : Runtime} {transfer : Transfer} {s t : Protocol}
    → KeptFrom origin s.order_book
    → Reachable rt transfer s t
    → KeptFrom origin t.order_book
Reachable-KeptFrom k start = k
Reachable-KeptFrom k (next r step) = Step-KeptFrom step (Reachable-KeptFrom k r)

-- In every state that any number of instructions of any users leads to, in any order, from a well-formed
-- book in an account with all its slots, the book is well-formed and the account has all its slots: no
-- side is over its slots, no order is empty or unpriced, every bid is below every ask.
pub Reachable-IsKept :
    {rt : Runtime} {transfer : Transfer} {s t : Protocol}
    → IsKept s.order_book
    → Reachable rt transfer s t
    → IsKept t.order_book
Reachable-IsKept {s = s} {t = t} k reach =
    KeptFrom-IsKept t.order_book (Reachable-KeptFrom (IsKept-KeptFrom s.order_book k) reach)
