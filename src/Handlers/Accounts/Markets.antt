-- ===== src/Handlers/Accounts/Markets.antt =====
-- programs/fructus/src/lib.rs: the accounts of the instructions that set a market up and that trade on
-- its book.
use fructus.Base.{ℕ, Bool, ◌&&◌, List, [], ◌∷◌, ◌==◌}
use fructus.State.{PerpMarket}
use fructus.Handlers.Runtime.{perp_market_seed, order_book_seed, vault_seed}
use fructus.Handlers.Accounts.{Account, Loaded, Framework, at_seeds, at_seeds_and_bump, inits}

-- The market at its PDA, with the bump that is stored in it.
abbrev pub is_market : Framework → Loaded PerpMarket → Bool
is_market fw m = at_seeds_and_bump fw (perp_market_seed ∷ []) m.value.bump m.info

-- The seeds of the book that belongs to a market.
abbrev pub order_book_seeds : Framework → ℕ → List (List ℕ)
order_book_seeds fw market_key = order_book_seed ∷ fw.runtime.as_ref market_key ∷ []

abbrev pub is_order_book : Framework → Loaded PerpMarket → Account → Bool
is_order_book fw m book = at_seeds fw (order_book_seeds fw m.info.key) book

-- `has_one = authority`, with the authority's signature.
abbrev pub has_authority : Loaded PerpMarket → Account → Bool
has_authority m authority = m.value.authority == authority.key && authority.is_signer

pub record InitializeMarket : Type 0 where
  pub market : Account
  pub index_source : Account
  pub authority : Account
  pub payer : Account

unfoldable pub admits_initialize_market : Framework → InitializeMarket → Bool
admits_initialize_market fw c =
    at_seeds fw (perp_market_seed ∷ []) c.market && inits c.market c.payer && c.authority.is_signer

pub record InitializeOrderBook : Type 0 where
  pub order_book : Account
  pub market : Loaded PerpMarket
  pub authority : Account
  pub payer : Account

unfoldable pub admits_initialize_order_book : Framework → InitializeOrderBook → Bool
admits_initialize_order_book fw c =
    is_order_book fw c.market c.order_book
    && inits c.order_book c.payer
    && is_market fw c.market
    && has_authority c.market c.authority

pub record InitializeCollateralVault : Type 0 where
  pub market : Loaded PerpMarket
  pub authority : Account
  pub payer : Account
  pub vault : Account
  pub collateral_mint : Account

unfoldable pub admits_initialize_collateral_vault : Framework → InitializeCollateralVault → Bool
admits_initialize_collateral_vault fw c =
    is_market fw c.market
    && has_authority c.market c.authority
    && c.payer.is_signer
    && c.payer.is_writable
    && c.vault.is_writable
    && at_seeds fw (vault_seed ∷ []) c.vault
    && c.collateral_mint.key == c.market.value.collateral_mint

pub record PlaceLimitOrder : Type 0 where
  pub order_book : Account
  pub market : Loaded PerpMarket
  pub index_source : Account
  pub owner : Account

unfoldable pub admits_place_limit_order : Framework → PlaceLimitOrder → Bool
admits_place_limit_order fw c =
    c.order_book.is_writable
    && is_order_book fw c.market c.order_book
    && is_market fw c.market
    && c.index_source.key == c.market.value.index_source
    && c.owner.is_signer

pub record PlaceMarketOrder : Type 0 where
  pub order_book : Account
  pub market : Loaded PerpMarket
  pub index_source : Account
  pub owner : Account

unfoldable pub admits_place_market_order : Framework → PlaceMarketOrder → Bool
admits_place_market_order fw c =
    c.order_book.is_writable
    && is_order_book fw c.market c.order_book
    && is_market fw c.market
    && c.index_source.key == c.market.value.index_source
    && c.owner.is_signer

pub record CancelOrder : Type 0 where
  pub order_book : Account
  pub market : Loaded PerpMarket
  pub owner : Account

unfoldable pub admits_cancel_order : Framework → CancelOrder → Bool
admits_cancel_order fw c =
    c.order_book.is_writable
    && is_order_book fw c.market c.order_book
    && is_market fw c.market
    && c.owner.is_signer

pub record Crank : Type 0 where
  pub order_book : Account
  pub market : Loaded PerpMarket
  pub index_source : Account
  pub cranker : Account

unfoldable pub admits_crank : Framework → Crank → Bool
admits_crank fw c =
    c.order_book.is_writable
    && is_order_book fw c.market c.order_book
    && is_market fw c.market
    && c.index_source.key == c.market.value.index_source
    && c.cranker.is_signer
