-- ===== src/Collateral/Ledger.antt =====
-- programs/fructus/src/collateral.rs: the free seam, exactly, and the round trip of a deposit.
use fructus.Base.{ℕ, ◌+◌, ◌-◌, ◌≤◌, ◌<◌, ◌≡◌, ◌⊎◌, none, some, arith}
use fructus.Collateral.{deposit, withdraw}

-- A withdrawal succeeds exactly where the amount and the reserve together fit into the deposit; it
-- takes the amount, and the reserve stays covered. Otherwise it gives nothing.
pub withdraw_iff :
    (deposited reserved amount : ℕ)
    → ((reserved + amount ≤ deposited)
        × (withdraw deposited reserved amount ≡ some (deposited - amount))
        × (reserved ≤ deposited - amount))
      ⊎ ((deposited < reserved + amount) × (withdraw deposited reserved amount ≡ none))
unfolding withdraw
withdraw_iff d s a = grind arith

-- What was deposited into a `u64` ledger can be withdrawn again, where the reserve was covered, and
-- leaves the ledger as it was.
pub withdraw-deposit :
    (deposited reserved amount : ℕ) {up : ℕ}
    → reserved ≤ deposited
    → deposit deposited amount ≡ some up
    → withdraw up reserved amount ≡ some deposited
unfolding deposit withdraw
withdraw-deposit d s a h e = ground arith
