-- ===== src/Collateral.antt =====
-- programs/fructus/src/collateral.rs: the free-collateral predicate and the ledger transitions of the
-- vault, on `u64` amounts.
pub mod Ledger
use fructus.Base.{ℕ, Option, none, some, ltb, if◌then◌else◌, checked_add, checked_sub, u64_size}
use fructus.Base.Options.{◌>>=◌, ◌>>◌, refuse}

unfoldable pub free_collateral : ℕ → ℕ → Option ℕ
free_collateral deposited reserved = checked_sub deposited reserved

unfoldable pub deposit : ℕ → ℕ → Option ℕ
deposit deposited amount = checked_add u64_size deposited amount

unfoldable pub withdraw : ℕ → ℕ → ℕ → Option ℕ
unfolding free_collateral
withdraw deposited reserved amount = do
  free ← free_collateral deposited reserved
  refuse (ltb free amount)
  checked_sub deposited amount
