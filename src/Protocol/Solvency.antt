-- ===== src/Protocol/Solvency.antt =====
-- No sequence of instructions lets the program owe more than its vault holds.
pub mod Fills
use fructus.Base.{ℕ, ◌+◌, ◌≤◌, ◌≡◌, ◌≢◌, refl, sym, ap, subst, ◌∙◌, Option, none, some, List, arith}
use fructus.Errors.{ok}
use fructus.State.{UserCollateral}
use fructus.Handlers.Runtime.{Runtime, position_pda, collateral_pda}
use fructus.Handlers.Vault.{Transfer, Custody, ledger_or_fresh}
use fructus.Handlers.Vault.Backing.{
  Moves, owed, deposit_collateral_backed, withdraw_collateral_backed, deposit_collateral-ledger,
  withdraw_collateral-ledger,
}
use fructus.Handlers.Lifecycle.{Trading}
use fructus.Handlers.Settling.{Books}
use fructus.Handlers.Settling.Conservation
use fructus.Handlers.Settling.Conservation.{
  Untouched, settle_close-Untouched, settle_funding-Untouched,
}
use fructus.Handlers.Liquidating.{Parties}
use fructus.Handlers.Liquidating.Safety
use fructus.Handlers.Liquidating.Safety.{liquidate_conserves}
use fructus.Protocol.{
  Protocol, find_ledger, put_ledger, write_ledger, custody_at, with_custody, trading_at,
  with_trading, books_at, with_books, parties_at, with_parties, Step, placed_limit, placed_market,
  cancelled, cranked, deposited, withdrawn, opened, closed, filled, reset, settled_close,
  settled_funding, liquidated, received, Reachable, start, next,
}
use fructus.Protocol.Ledgers.{
  total_deposited, deposit_of, total_deposited-put_ledger, total_deposited-write_ledger,
  find_ledger-put_ledger,
}
use fructus.Protocol.Solvency.Fills.{
  open_position-deposit, close_position-deposit, settle_fill-deposit,
}

-- What the program owes out of the vault: all deposits, and the pool.
abbrev pub owed_in_total : Protocol → ℕ
owed_in_total s = total_deposited s.ledgers + s.market.pnl_pool

abbrev pub IsSolvent : Protocol → Type 0
IsSolvent s = owed_in_total s ≤ s.vault

deposit_of-ledger_or_fresh :
    (bump : ℕ) (o : Option UserCollateral) → (ledger_or_fresh bump o).deposited ≡ deposit_of o
deposit_of-ledger_or_fresh bump none = refl
deposit_of-ledger_or_fresh bump (some u) = refl

-- A custody that moves the vault by what it moves its user's deposit and the pool keeps the system so.
with_custody-owed :
    (s : Protocol) (key bump : ℕ) (u : UserCollateral) (c : Custody)
    → c.ledger ≡ some u
    → owed_in_total (with_custody s key c)
        + (deposit_of (find_ledger s.ledgers key) + s.market.pnl_pool)
      ≡ owed_in_total s + owed bump c
with_custody-owed s key bump u c h =
    rw h (omega (arith, total_deposited-put_ledger s.ledgers key u))

with_trading-owed :
    (s : Protocol) (position_key collateral_key : ℕ) (t : Trading)
    → deposit_of t.user_collateral ≡ deposit_of (find_ledger s.ledgers collateral_key)
    → IsSolvent s
    → IsSolvent (with_trading s position_key collateral_key t)
with_trading-owed s position_key collateral_key t h v =
    omega (arith, total_deposited-write_ledger s.ledgers collateral_key t.user_collateral h)

with_books-owed :
    (s : Protocol) (position_key collateral_key : ℕ) (u : UserCollateral) (b : Books)
    → find_ledger s.ledgers collateral_key ≡ some u
    → b.user_collateral.deposited + b.market.pnl_pool ≡ u.deposited + s.market.pnl_pool
    → IsSolvent s
    → IsSolvent (with_books s position_key collateral_key b)
with_books-owed s position_key collateral_key u b h k v =
    let found : deposit_of (find_ledger s.ledgers collateral_key) ≡ u.deposited = ap deposit_of h in
    omega
      (arith, total_deposited-put_ledger s.ledgers collateral_key b.user_collateral, found, k, v)

with_parties-owed :
    (s : Protocol) (position_key collateral_key liquidator_key : ℕ) (u l : UserCollateral)
    (q : Parties)
    → collateral_key ≢ liquidator_key
    → find_ledger s.ledgers collateral_key ≡ some u
    → find_ledger s.ledgers liquidator_key ≡ some l
    → q.user_collateral.deposited + q.liquidator_collateral.deposited + q.market.pnl_pool
      ≡ u.deposited + l.deposited + s.market.pnl_pool
    → IsSolvent s
    → IsSolvent (with_parties s position_key collateral_key liquidator_key q)
with_parties-owed s position_key collateral_key liquidator_key u l q apart h h1 k v =
    let ls : List (ℕ × UserCollateral) = put_ledger s.ledgers collateral_key q.user_collateral in
    let found : deposit_of (find_ledger s.ledgers collateral_key) ≡ u.deposited = ap deposit_of h in
    let found1 : deposit_of (find_ledger ls liquidator_key) ≡ l.deposited = ap deposit_of (
      find_ledger-put_ledger s.ledgers collateral_key liquidator_key q.user_collateral apart
      ∙ h1) in
    omega (
      arith,
      total_deposited-put_ledger s.ledgers collateral_key q.user_collateral,
      total_deposited-put_ledger ls liquidator_key q.liquidator_collateral,
      found,
      found1,
      k,
      v,
    )

-- An instruction that goes through, whichever it is, leaves the vault with at least what is owed out of
-- it, where it had that before and the token program moves what it is asked to.
pub Step-IsSolvent :
    {rt : Runtime} {transfer : Transfer} {s t : Protocol}
    → Moves transfer
    → Step rt transfer s t
    → IsSolvent s
    → IsSolvent t
Step-IsSolvent m (placed_limit s index_source owner slot side price size book e) v = v
Step-IsSolvent m (placed_market s index_source owner slot side size book e) v = v
Step-IsSolvent m (cancelled s owner slot seq book e) v = v
Step-IsSolvent m (cranked s index_source slot book e) v = v
Step-IsSolvent {rt} {transfer} m (deposited s user user_ata amount vault_is_empty c e) v =
    let key : ℕ = (collateral_pda rt s.market_key user).0 in
    let bump : ℕ = (collateral_pda rt s.market_key user).1 in
    let before : Custody = custody_at s key user_ata in
    let (u, h, ratio) = deposit_collateral-ledger transfer before vault_is_empty bump amount e in
    let (k, k1, k2, k3) =
      deposit_collateral_backed transfer before vault_is_empty bump amount m e in
    omega (
      arith,
      with_custody-owed s key bump u c h,
      deposit_of-ledger_or_fresh bump (find_ledger s.ledgers key),
      k,
      k1,
      v,
    )
Step-IsSolvent {rt} {transfer} m (withdrawn s user user_ata amount vault_is_empty u c h e) v =
    let key : ℕ = (collateral_pda rt s.market_key user).0 in
    let before : Custody = custody_at s key user_ata in
    let (w, h1, ratio) = withdraw_collateral-ledger transfer before u vault_is_empty amount e in
    let (k, k1, k2, k3, k4) =
      withdraw_collateral_backed transfer before u vault_is_empty amount m h e in
    omega (
      arith,
      with_custody-owed s key u.bump w c h1,
      deposit_of-ledger_or_fresh u.bump (find_ledger s.ledgers key),
      k,
      k1,
      v,
    )
Step-IsSolvent {rt} m (opened s index_source owner slot side size price t e) v =
    with_trading-owed s (position_pda rt s.market_key owner side).0
      (collateral_pda rt s.market_key owner).0 t
      (open_position-deposit s.market s.market_key
        (trading_at s (position_pda rt s.market_key owner side).0
          (collateral_pda rt s.market_key owner).0)
        index_source owner (position_pda rt s.market_key owner side).1 slot side size price e)
      v
Step-IsSolvent {rt} m (closed s index_source owner slot side size t e) v =
    with_trading-owed s (position_pda rt s.market_key owner side).0
      (collateral_pda rt s.market_key owner).0 t
      (close_position-deposit s.market
        (trading_at s (position_pda rt s.market_key owner side).0
          (collateral_pda rt s.market_key owner).0)
        index_source owner slot side size e)
      v
Step-IsSolvent {rt} m (filled s position_key collateral_key slot seq t e) v =
    with_trading-owed s position_key collateral_key t
      (settle_fill-deposit rt s.market s.market_key (trading_at s position_key collateral_key)
        position_key collateral_key slot seq e)
      v
Step-IsSolvent m (reset s user side account e) v = v
Step-IsSolvent {rt} m (settled_close s index_source position_key collateral_key p u b h h1 e) v =
    let untouched : Untouched (books_at s p u) b =
      settle_close-Untouched rt s.market_key (books_at s p u) collateral_key index_source e in
    with_books-owed s position_key collateral_key u b h1 untouched.same_value v
Step-IsSolvent {rt} m (settled_funding s index_source position_key collateral_key slot p u b h h1 e)
      v =
    let untouched : Untouched (books_at s p u) b =
      settle_funding-Untouched rt s.market_key (books_at s p u) collateral_key s.order_book
        index_source slot e in
    with_books-owed s position_key collateral_key u b h1 untouched.same_value v
Step-IsSolvent {rt} m
      (liquidated s index_source position_key collateral_key liquidator slot amount p u l q apart h
        h1 h2 e)
      v =
    with_parties-owed s position_key collateral_key (collateral_pda rt s.market_key liquidator).0 u
      l q apart h1 h2
      (liquidate_conserves rt s.market_key (parties_at s p u l) collateral_key s.order_book
        index_source slot amount e)
      v
Step-IsSolvent m (received s amount) v = omega arith

-- A solvent program stays solvent: in every state that any number of instructions of any users leads to,
-- in any order, the vault holds at least what all ledgers have deposited and the pool.
pub Reachable-IsSolvent :
    {rt : Runtime} {transfer : Transfer} {s t : Protocol}
    → Moves transfer
    → IsSolvent s
    → Reachable rt transfer s t
    → IsSolvent t
Reachable-IsSolvent m v start = v
Reachable-IsSolvent m v (next r step) = Step-IsSolvent m step (Reachable-IsSolvent m v r)
