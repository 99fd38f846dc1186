-- ===== src/Protocol/Payout.antt =====
-- What a user may withdraw, the vault can pay.
use fructus.Base.{
  ℕ, ◌+◌, ◌-◌, ◌≤◌, ◌<◌, ◌≡◌, refl, Bool, false, some, List, [], ◌∷◌, arith, ◌==◌, if◌then◌else◌,
  u64_size, min_of, true,
}
use fructus.Errors.{ok}
use fructus.State.{UserCollateral}
use fructus.Settlement.{claim_payout}
use fructus.Collateral.{withdraw, free_collateral}
use fructus.Handlers.Runtime.{Runtime, collateral_pda}
use fructus.Handlers.Vault.{Transfer, Custody, withdraw_collateral}
use fructus.Handlers.Vault.Backing.{Moves}
use fructus.Protocol.{Protocol, find_ledger, custody_at, Reachable}
use fructus.Protocol.Ledgers.{total_deposited}
use fructus.Protocol.Solvency.{IsSolvent, Reachable-IsSolvent}

-- The token program's transfer goes through where the balance covers the amount and the other balance
-- can take it.
abbrev pub Pays : Transfer → Type 0
Pays transfer =
    (from to amount : ℕ)
    → amount ≤ from
    → to + amount < u64_size
    → (r : ℕ × ℕ) × (transfer from to amount ≡ ok r)

deposited-le :
    (ls : List (ℕ × UserCollateral)) (key : ℕ) {u : UserCollateral}
    → find_ledger ls key ≡ some u
    → u.deposited ≤ total_deposited ls
deposited-le [] key h = cc
deposited-le ((k, w) ∷ ls) key {u} h = by_key (k == key) h (λ h1. deposited-le ls key h1)
  where
    by_key :
        (b : Bool)
        → (if b then some w else find_ledger ls key) ≡ some u
        → (find_ledger ls key ≡ some u → u.deposited ≤ total_deposited ls)
        → u.deposited ≤ w.deposited + total_deposited ls
    by_key true h rest = ground arith
    by_key false h rest = omega (arith, rest h)

claim_payout-grows :
    (deposited claimable pool : ℕ)
    → deposited + pool < u64_size
    → (r : ℕ × ℕ × ℕ) × (claim_payout deposited claimable pool ≡ some r) × (deposited ≤ r.0)
unfolding claim_payout
claim_payout-grows d c p h =
    ((d + min_of c p, c - min_of c p, p - min_of c p), ground arith, ground arith)

withdraw-some :
    (deposited reserved amount : ℕ)
    → amount + reserved ≤ deposited
    → withdraw deposited reserved amount ≡ some (deposited - amount)
unfolding withdraw free_collateral
withdraw-some d r a h = ground arith

withdraw_collateral_total :
    (transfer : Transfer) (c : Custody) (u : UserCollateral) (amount : ℕ)
    → Pays transfer
    → 0 < amount
    → amount + u.reserved ≤ u.deposited
    → u.deposited + c.market.pnl_pool ≤ c.vault
    → c.vault < u64_size
    → c.user_ata + amount < u64_size
    → (c' : Custody) × (withdraw_collateral transfer c u false amount ≡ ok c')
unfolding withdraw_collateral
withdraw_collateral_total transfer c u amount pays some_amount free backed small room =
    let (claimed, h, h1) =
      claim_payout-grows u.deposited u.claimable c.market.pnl_pool (omega arith) in
    let h2 = withdraw-some claimed.0 u.reserved amount (omega (arith, h1, free)) in
    let (moved, h3) = pays c.vault c.user_ata amount (omega arith) room in
    let nonzero : amount == 0 ≡ false = ground arith in
    (
      record {
        vault = moved.0;
        user_ata = moved.1;
        ledger = some (record u { deposited = claimed.0 - amount; claimable = claimed.1 });
        market = record c.market { pnl_pool = claimed.2 };
      },
      rw (nonzero, h, h2, h3) refl,
    )

-- In every state that a solvent program gets to, whatever its users have done, a user whose deposit covers
-- the amount and the reserve withdraws it: the instruction goes through, if the token program pays what
-- a balance covers and the balances are `u64`.
pub withdraw_collateral_payable :
    {rt : Runtime} {transfer : Transfer} {s t : Protocol}
    → Moves transfer
    → Pays transfer
    → IsSolvent s
    → Reachable rt transfer s t
    → (user user_ata amount : ℕ) (u : UserCollateral)
    → find_ledger t.ledgers (collateral_pda rt t.market_key user).0 ≡ some u
    → 0 < amount
    → amount + u.reserved ≤ u.deposited
    → t.vault < u64_size
    → user_ata + amount < u64_size
    → (c : Custody) × (withdraw_collateral transfer
          (custody_at t (collateral_pda rt t.market_key user).0 user_ata)
          u
          false
          amount
        ≡ ok c)
withdraw_collateral_payable {rt} {transfer} {s} {t} moves pays solvent reach user user_ata amount u
      found some_amount free small room =
    let key : ℕ = (collateral_pda rt t.market_key user).0 in
    let kept : IsSolvent t = Reachable-IsSolvent moves solvent reach in
    withdraw_collateral_total transfer (custody_at t key user_ata) u amount pays some_amount free
      (omega (arith, deposited-le t.ledgers key found, kept)) small room
