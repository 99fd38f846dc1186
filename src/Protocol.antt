-- ===== src/Protocol.antt =====
-- The program as a system: its accounts in one state, and the instructions of
-- programs/fructus/src/lib.rs as steps on it. A step runs one handler on the accounts that the state
-- holds at the addresses it was given, and writes back the accounts that the handler returns.
pub mod Ledgers
pub mod Solvency
pub mod Orderly
pub mod Booking
pub mod Payout
pub mod Margins
pub mod Genesis
use fructus.Base.{
  ℕ, ◌+◌, ◌≤◌, ◌<◌, ◌≡◌, ◌≢◌, Bool, true, false, Option, none, some, List, [], ◌∷◌, ◌==◌,
  if◌then◌else◌,
}
use fructus.Errors.{ok}
use fructus.Exchange.{AccountInfo}
use fructus.State.{OrderBook, PerpMarket, Position, UserCollateral}
use fructus.Handlers.Runtime.{Runtime, PdaAccount, owned, position_pda, collateral_pda}
use fructus.Handlers.Orders.{place_limit_order, place_market_order, cancel_order, crank}
use fructus.Handlers.Lifecycle.{Trading, open_position, close_position, settle_fill, reset_position}
use fructus.Handlers.Settling.{Books, settle_close, settle_funding}
use fructus.Handlers.Liquidating.{Parties, liquidate}
use fructus.Handlers.Vault.{Transfer, Custody, deposit_collateral, withdraw_collateral}

-- The accounts of one market: the balance of its vault, the positions and the ledgers by address.
pub record Protocol : Type 0 where
  pub market_key : ℕ
  pub market : PerpMarket
  pub vault : ℕ
  pub order_book : OrderBook
  pub positions : ℕ → PdaAccount
  pub ledgers : List (ℕ × UserCollateral)

-- The ledger at an address.
abbrev pub find_ledger : List (ℕ × UserCollateral) → ℕ → Option UserCollateral
find_ledger [] key = none
find_ledger ((k, u) ∷ ls) key = if k == key then some u else find_ledger ls key

abbrev pub put_ledger : List (ℕ × UserCollateral) → ℕ → UserCollateral → List (ℕ × UserCollateral)
put_ledger [] key v = (key, v) ∷ []
put_ledger ((k, u) ∷ ls) key v = if k == key then (k, v) ∷ ls else (k, u) ∷ put_ledger ls key v

abbrev pub write_ledger :
    List (ℕ × UserCollateral) → ℕ → Option UserCollateral → List (ℕ × UserCollateral)
write_ledger ls key none = ls
write_ledger ls key (some v) = put_ledger ls key v

abbrev pub put_position : (ℕ → PdaAccount) → ℕ → PdaAccount → ℕ → PdaAccount
put_position positions key account k = if k == key then account else positions k

-- What the instructions read at the addresses they are given, and the state with what they return.
abbrev pub custody_at : Protocol → ℕ → ℕ → Custody
custody_at s key user_ata = record {
  vault = s.vault;
  user_ata = user_ata;
  ledger = find_ledger s.ledgers key;
  market = s.market;
}

abbrev pub with_custody : Protocol → ℕ → Custody → Protocol
with_custody s key c = record s {
  market = c.market;
  vault = c.vault;
  ledgers = write_ledger s.ledgers key c.ledger;
}

abbrev pub trading_at : Protocol → ℕ → ℕ → Trading
trading_at s position_key collateral_key = record {
  order_book = s.order_book;
  position = s.positions position_key;
  user_collateral = find_ledger s.ledgers collateral_key;
}

abbrev pub with_trading : Protocol → ℕ → ℕ → Trading → Protocol
with_trading s position_key collateral_key t = record s {
  order_book = t.order_book;
  positions = put_position s.positions position_key t.position;
  ledgers = write_ledger s.ledgers collateral_key t.user_collateral;
}

abbrev pub books_at : Protocol → Position → UserCollateral → Books
books_at s p u = record { market = s.market; position = p; user_collateral = u }

abbrev pub with_books : Protocol → ℕ → ℕ → Books → Protocol
with_books s position_key collateral_key b = record s {
  market = b.market;
  positions = put_position s.positions position_key (owned b.position);
  ledgers = put_ledger s.ledgers collateral_key b.user_collateral;
}

abbrev pub parties_at : Protocol → Position → UserCollateral → UserCollateral → Parties
parties_at s p u l = record {
  market = s.market;
  position = p;
  user_collateral = u;
  liquidator_collateral = l;
}

abbrev pub with_parties : Protocol → ℕ → ℕ → ℕ → Parties → Protocol
with_parties s position_key collateral_key liquidator_key q = record s {
  market = q.market;
  positions = put_position s.positions position_key (owned q.position);
  ledgers =
      put_ledger (put_ledger s.ledgers collateral_key q.user_collateral) liquidator_key
        q.liquidator_collateral;
}

-- One instruction that goes through, at any slot and with any state of the stake pool. Addresses with
-- seeds in an accounts struct are derived; the others are whatever the caller gives.
pub data Step (rt : Runtime) (transfer : Transfer) : Protocol → Protocol → Type 0 where
  placed_limit :
      (s : Protocol) (index_source : AccountInfo) (owner slot side price size : ℕ)
      (book : OrderBook)
      → place_limit_order s.order_book index_source owner slot side price size ≡ ok book
      → Step rt transfer s (record s { order_book = book })
  placed_market :
      (s : Protocol) (index_source : AccountInfo) (owner slot side size : ℕ) (book : OrderBook)
      → place_market_order s.order_book index_source owner slot side size ≡ ok book
      → Step rt transfer s (record s { order_book = book })
  cancelled :
      (s : Protocol) (owner slot seq : ℕ) (book : OrderBook)
      → cancel_order s.order_book owner slot seq ≡ ok book
      → Step rt transfer s (record s { order_book = book })
  cranked :
      (s : Protocol) (index_source : AccountInfo) (slot : ℕ) (book : OrderBook)
      → crank s.order_book index_source slot ≡ ok book
      → Step rt transfer s (record s { order_book = book })
  deposited :
      (s : Protocol) (user user_ata amount : ℕ) (vault_is_empty : Bool) (c : Custody)
      → deposit_collateral transfer
          (custody_at s (collateral_pda rt s.market_key user).0 user_ata)
          vault_is_empty
          (collateral_pda rt s.market_key user).1
          amount
        ≡ ok c
      → Step rt transfer s (with_custody s (collateral_pda rt s.market_key user).0 c)
  withdrawn :
      (s : Protocol) (user user_ata amount : ℕ) (vault_is_empty : Bool) (u : UserCollateral)
      (c : Custody)
      → find_ledger s.ledgers (collateral_pda rt s.market_key user).0 ≡ some u
      → withdraw_collateral transfer
          (custody_at s (collateral_pda rt s.market_key user).0 user_ata)
          u
          vault_is_empty
          amount
        ≡ ok c
      → Step rt transfer s (with_custody s (collateral_pda rt s.market_key user).0 c)
  opened :
      (s : Protocol) (index_source : AccountInfo) (owner slot side size price : ℕ) (t : Trading)
      → open_position s.market s.market_key
          (trading_at s
            (position_pda rt s.market_key owner side).0
            (collateral_pda rt s.market_key owner).0)
          index_source
          owner
          (position_pda rt s.market_key owner side).1
          slot
          side
          size
          price
        ≡ ok t
      → Step rt transfer s (
          with_trading s
            (position_pda rt s.market_key owner side).0
            (collateral_pda rt s.market_key owner).0
            t)
  closed :
      (s : Protocol) (index_source : AccountInfo) (owner slot side size : ℕ) (t : Trading)
      → close_position s.market
          (trading_at s
            (position_pda rt s.market_key owner side).0
            (collateral_pda rt s.market_key owner).0)
          index_source
          owner
          slot
          side
          size
        ≡ ok t
      → Step rt transfer s (
          with_trading s
            (position_pda rt s.market_key owner side).0
            (collateral_pda rt s.market_key owner).0
            t)
  filled :
      (s : Protocol) (position_key collateral_key slot seq : ℕ) (t : Trading)
      → settle_fill rt s.market s.market_key
          (trading_at s position_key collateral_key)
          position_key
          collateral_key
          slot
          seq
        ≡ ok t
      → Step rt transfer s (with_trading s position_key collateral_key t)
  reset :
      (s : Protocol) (user side : ℕ) (account : PdaAccount)
      → reset_position (s.positions (position_pda rt s.market_key user side).0) side ≡ ok account
      → Step rt transfer s (record s {
        positions = put_position s.positions (position_pda rt s.market_key user side).0 account;
      })
  settled_close :
      (s : Protocol) (index_source : AccountInfo) (position_key collateral_key : ℕ) (p : Position)
      (u : UserCollateral) (b : Books)
      → s.positions position_key ≡ owned p
      → find_ledger s.ledgers collateral_key ≡ some u
      → settle_close rt s.market_key (books_at s p u) collateral_key index_source ≡ ok b
      → Step rt transfer s (with_books s position_key collateral_key b)
  settled_funding :
      (s : Protocol) (index_source : AccountInfo) (position_key collateral_key slot : ℕ)
      (p : Position) (u : UserCollateral) (b : Books)
      → s.positions position_key ≡ owned p
      → find_ledger s.ledgers collateral_key ≡ some u
      → settle_funding rt s.market_key
          (books_at s p u)
          collateral_key
          s.order_book
          index_source
          slot
        ≡ ok b
      → Step rt transfer s (with_books s position_key collateral_key b)
  -- The framework rejects one writable account in two places: the two ledgers are distinct.
  liquidated :
      (s : Protocol) (index_source : AccountInfo) (position_key collateral_key liquidator : ℕ)
      (slot amount : ℕ) (p : Position) (u l : UserCollateral) (q : Parties)
      → collateral_key ≢ (collateral_pda rt s.market_key liquidator).0
      → s.positions position_key ≡ owned p
      → find_ledger s.ledgers collateral_key ≡ some u
      → find_ledger s.ledgers (collateral_pda rt s.market_key liquidator).0 ≡ some l
      → liquidate rt s.market_key
          (parties_at s p u l)
          collateral_key
          s.order_book
          index_source
          slot
          amount
        ≡ ok q
      → Step rt transfer s (
          with_parties s position_key collateral_key
            (collateral_pda rt s.market_key liquidator).0
            q)
  -- Tokens that anyone sends to the vault.
  received :
      (s : Protocol) (amount : ℕ) → Step rt transfer s (record s { vault = s.vault + amount })

-- What any number of instructions makes of a state.
pub data Reachable (rt : Runtime) (transfer : Transfer) (s : Protocol) : Protocol → Type 0 where
  start : Reachable rt transfer s s
  next :
      {t u : Protocol}
      → Reachable rt transfer s t
      → Step rt transfer t u
      → Reachable rt transfer s u
