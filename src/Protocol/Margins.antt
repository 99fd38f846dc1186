-- ===== src/Protocol/Margins.antt =====
-- No sequence of instructions leaves a position off its margin.
pub mod Trades
pub mod Fills
use fructus.Base.{
  refl, ℕ, ◌≤◌, ◌<◌, ◌≡◌, sym, ap, subst, ◌∙◌, inl, inr, Bool, arith, ◌==◌, if◌then◌else◌,
  Bool-cases,
}
use fructus.Errors.{ok}
use fructus.Constants.{max_margin_bps}
use fructus.Exchange.{AccountInfo}
use fructus.State.{Position, UserCollateral}
use fructus.Positions.Margin.{margin_of}
use fructus.Handlers.Runtime.{Runtime, PdaAccount, owned, position_pda, collateral_pda}
use fructus.Handlers.Vault.{Transfer, Custody}
use fructus.Handlers.Vault.Backing.{deposit_collateral-ledger, withdraw_collateral-ledger}
use fructus.Handlers.Settling.{Books}
use fructus.Handlers.Settling.Conservation.{
  Untouched, settle_close-Untouched, settle_funding-Untouched,
}
use fructus.Handlers.Liquidating.{Parties, liquidate}
use fructus.Handlers.Liquidating.Safety.{IsBacked, Liquidated, liquidate-Liquidated}
use fructus.Protocol.{
  Protocol, find_ledger, put_position, custody_at, with_custody, trading_at, with_trading, books_at,
  with_books, parties_at, with_parties, Step, placed_limit, placed_market, cancelled, cranked,
  deposited, withdrawn, opened, closed, filled, reset, settled_close, settled_funding, liquidated,
  received, Reachable, start, next,
}
use fructus.Protocol.Margins.Trades.{
  AtMargin, IsMargined, open_position-IsMargined, close_position-IsMargined,
}
use fructus.Protocol.Margins.Fills.{settle_fill-IsMargined, reset_position-IsMargined}

-- The margin ratio of the market is one, and every position holds exactly the margin of its notional.
pub record AllMargined (s : Protocol) : Type 0 where
  pub ratio : s.market.initial_margin_bps ≤ max_margin_bps
  pub margined : (key : ℕ) → IsMargined s.market.initial_margin_bps (s.positions key)

put_position-IsMargined :
    (bps : ℕ) (positions : ℕ → PdaAccount) (key : ℕ) (account : PdaAccount)
    → ((k : ℕ) → IsMargined bps (positions k))
    → IsMargined bps account
    → (k : ℕ) → IsMargined bps (put_position positions key account k)
put_position-IsMargined bps positions key account all m k = elim (Bool-cases (k == key)) [
  | inl h ↦ rw h m
  | inr h ↦ rw h (all k)
]

-- A state with another market of the same ratio, and one position written.
written-AllMargined :
    (s t : Protocol) (key : ℕ) (account : PdaAccount)
    → t.market.initial_margin_bps ≡ s.market.initial_margin_bps
    → ((k : ℕ) → t.positions k ≡ put_position s.positions key account k)
    → AllMargined s
    → IsMargined s.market.initial_margin_bps account
    → AllMargined t
written-AllMargined s t key account same at v m = record {
  ratio = subst (λ bps. bps ≤ max_margin_bps) (sym same) v.ratio;
  margined = λ k.
      subst (λ bps. IsMargined bps (t.positions k)) (sym same)
        (subst (IsMargined s.market.initial_margin_bps) (sym (at k)) (
          put_position-IsMargined s.market.initial_margin_bps s.positions key account v.margined m
            k));
}

custody-AllMargined :
    (s t : Protocol)
    → t.market.initial_margin_bps ≡ s.market.initial_margin_bps
    → ((k : ℕ) → t.positions k ≡ s.positions k)
    → AllMargined s
    → AllMargined t
custody-AllMargined s t same at v = record {
  ratio = subst (λ bps. bps ≤ max_margin_bps) (sym same) v.ratio;
  margined = λ k.
      subst (λ bps. IsMargined bps (t.positions k)) (sym same)
        (subst (IsMargined s.market.initial_margin_bps) (sym (at k)) (v.margined k));
}

owned-AtMargin :
    (s : Protocol) (key : ℕ) (p : Position)
    → s.positions key ≡ owned p
    → AllMargined s
    → AtMargin s.market.initial_margin_bps p
owned-AtMargin s key p h v = subst (IsMargined s.market.initial_margin_bps) h (v.margined key)

settled-AllMargined :
    (s : Protocol) (position_key collateral_key : ℕ) (p : Position) (u : UserCollateral) (b : Books)
    → s.positions position_key ≡ owned p
    → Untouched (books_at s p u) b
    → AllMargined s
    → AllMargined (with_books s position_key collateral_key b)
settled-AllMargined s position_key collateral_key p u b h same v =
    let (m, m1) = owned-AtMargin s position_key p h v in
    written-AllMargined s (with_books s position_key collateral_key b) position_key
      (owned b.position) same.same_margin_ratio (λ k. refl) v
      (
        omega (arith, same.same_notional, m),
        same.same_collateral
            ∙ m1
            ∙ ap (λ n. margin_of n s.market.initial_margin_bps) (sym same.same_notional),
      )

-- A position that a liquidation has been through is at the margin of what is left of it.
liquidate-AllMargined :
    (s : Protocol) (position_key collateral_key liquidator_key amount : ℕ) (p : Position)
    (u l : UserCollateral) (q : Parties)
    → s.positions position_key ≡ owned p
    → Liquidated (parties_at s p u l) amount q
    → AllMargined s
    → AllMargined (with_parties s position_key collateral_key liquidator_key q)
liquidate-AllMargined s position_key collateral_key liquidator_key amount p u l q h done v =
    let (m, m1) = owned-AtMargin s position_key p h v in
    written-AllMargined s (with_parties s position_key collateral_key liquidator_key q) position_key
      (owned q.position) done.same_margin_ratio (λ k. refl) v
      (omega (arith, done.reduced, m), done.backed)

-- In a state with every position at its margin, a liquidation that goes through moves value between the two
-- ledgers and the pool and creates none, and releases from the reserve exactly what the margin falls by.
liquidate-backed :
    (rt : Runtime) (s : Protocol) (index_source : AccountInfo)
    (position_key collateral_key slot amount : ℕ) (p : Position) (u l : UserCollateral)
    (q : Parties)
    → s.positions position_key ≡ owned p
    → AllMargined s
    → liquidate rt s.market_key
        (parties_at s p u l)
        collateral_key
        s.order_book
        index_source
        slot
        amount
      ≡ ok q
    → Liquidated (parties_at s p u l) amount q
liquidate-backed rt s index_source position_key collateral_key slot amount p u l q h v e =
    let (m, m1) = owned-AtMargin s position_key p h v in
    liquidate-Liquidated rt s.market_key (parties_at s p u l) collateral_key s.order_book
      index_source slot amount (record { notional_u64 = m; ratio = v.ratio; backed = m1 }) e

Step-AllMargined :
    {rt : Runtime} {transfer : Transfer} {s t : Protocol}
    → Step rt transfer s t
    → AllMargined s
    → AllMargined t
Step-AllMargined (placed_limit s index_source owner slot side price size book e) v =
    custody-AllMargined s _ refl (λ k. refl) v
Step-AllMargined (placed_market s index_source owner slot side size book e) v =
    custody-AllMargined s _ refl (λ k. refl) v
Step-AllMargined (cancelled s owner slot seq book e) v = custody-AllMargined s _ refl (λ k. refl) v
Step-AllMargined (cranked s index_source slot book e) v = custody-AllMargined s _ refl (λ k. refl) v
Step-AllMargined {rt} {transfer} (deposited s user user_ata amount vault_is_empty c e) v =
    let key : ℕ = (collateral_pda rt s.market_key user).0 in
    let (w, h, same) =
      deposit_collateral-ledger transfer (custody_at s key user_ata) vault_is_empty
        (collateral_pda rt s.market_key user).1 amount e in
    custody-AllMargined s (with_custody s key c) same (λ k. refl) v
Step-AllMargined {rt} {transfer} (withdrawn s user user_ata amount vault_is_empty u c h0 e) v =
    let key : ℕ = (collateral_pda rt s.market_key user).0 in
    let (w, h, same) =
      withdraw_collateral-ledger transfer (custody_at s key user_ata) u vault_is_empty amount e in
    custody-AllMargined s (with_custody s key c) same (λ k. refl) v
Step-AllMargined {rt} (opened s index_source owner slot side size price t e) v =
    let position_key : ℕ = (position_pda rt s.market_key owner side).0 in
    let collateral_key : ℕ = (collateral_pda rt s.market_key owner).0 in
    written-AllMargined s (with_trading s position_key collateral_key t) position_key t.position
      refl (λ k. refl) v
      (open_position-IsMargined s.market s.market_key (trading_at s position_key collateral_key)
        index_source owner (position_pda rt s.market_key owner side).1 slot side size price v.ratio
        (v.margined position_key) e)
Step-AllMargined {rt} (closed s index_source owner slot side size t e) v =
    let position_key : ℕ = (position_pda rt s.market_key owner side).0 in
    let collateral_key : ℕ = (collateral_pda rt s.market_key owner).0 in
    written-AllMargined s (with_trading s position_key collateral_key t) position_key t.position
      refl (λ k. refl) v
      (close_position-IsMargined s.market (trading_at s position_key collateral_key) index_source
        owner slot side size v.ratio (v.margined position_key) e)
Step-AllMargined {rt} (filled s position_key collateral_key slot seq t e) v =
    written-AllMargined s (with_trading s position_key collateral_key t) position_key t.position
      refl (λ k. refl) v
      (settle_fill-IsMargined rt s.market s.market_key (trading_at s position_key collateral_key)
        position_key collateral_key slot seq v.ratio (v.margined position_key) e)
Step-AllMargined {rt} (reset s user side account e) v =
    let position_key : ℕ = (position_pda rt s.market_key user side).0 in
    written-AllMargined s _ position_key account refl (λ k. refl) v
      (reset_position-IsMargined s.market.initial_margin_bps (s.positions position_key) side e)
Step-AllMargined {rt} (settled_close s index_source position_key collateral_key p u b h h1 e) v =
    let same : Untouched (books_at s p u) b =
      settle_close-Untouched rt s.market_key (books_at s p u) collateral_key index_source e in
    settled-AllMargined s position_key collateral_key p u b h same v
Step-AllMargined {rt} (settled_funding s index_source position_key collateral_key slot p u b h h1 e)
      v =
    let same : Untouched (books_at s p u) b =
      settle_funding-Untouched rt s.market_key (books_at s p u) collateral_key s.order_book
        index_source slot e in
    settled-AllMargined s position_key collateral_key p u b h same v
Step-AllMargined {rt}
      (liquidated s index_source position_key collateral_key liquidator slot amount p u l q apart h
        h1 h2 e)
      v =
    liquidate-AllMargined s position_key collateral_key
      (collateral_pda rt s.market_key liquidator).0 amount p u l q h
      (liquidate-backed rt s index_source position_key collateral_key slot amount p u l q h v e) v
Step-AllMargined (received s amount) v = custody-AllMargined s _ refl (λ k. refl) v

-- In every state that any number of instructions of any users leads to, in any order, every position holds
-- exactly the margin of its notional at the market's ratio, if that was so at first.
pub Reachable-AllMargined :
    {rt : Runtime} {transfer : Transfer} {s t : Protocol}
    → AllMargined s
    → Reachable rt transfer s t
    → AllMargined t
Reachable-AllMargined v start = v
Reachable-AllMargined v (next r step) = Step-AllMargined step (Reachable-AllMargined v r)

-- A liquidation in a reachable state needs no premise on the position: in every state that instructions lead
-- to from one with every position at its margin, a `liquidate` that goes through creates no value in the
-- two ledgers and the pool, takes the amount off the notional, releases from the reserve exactly what
-- the position's margin falls by, and leaves what is reserved covered by the deposit.
pub Reachable-Liquidated :
    {rt : Runtime} {transfer : Transfer} {s t : Protocol}
    → AllMargined s
    → Reachable rt transfer s t
    → (index_source : AccountInfo) (position_key collateral_key slot amount : ℕ) (p : Position)
      (u l : UserCollateral) (q : Parties)
    → t.positions position_key ≡ owned p
    → liquidate rt t.market_key
        (parties_at t p u l)
        collateral_key
        t.order_book
        index_source
        slot
        amount
      ≡ ok q
    → Liquidated (parties_at t p u l) amount q
Reachable-Liquidated {rt} {transfer} {s} {t} v r index_source position_key collateral_key slot
      amount p u l q h e =
    liquidate-backed rt t index_source position_key collateral_key slot amount p u l q h
      (Reachable-AllMargined v r) e
