-- ===== src/Protocol/Ledgers.antt =====
-- The ledgers of all users: what is deposited in total, and what writing one ledger makes of it.
use fructus.Base.{
  ℕ, ◌+◌, ◌≡◌, ◌≢◌, refl, inl, inr, Option, none, some, List, [], ◌∷◌, arith, ◌==◌, Bool-cases,
}
use fructus.State.{UserCollateral}
use fructus.Protocol.{find_ledger, put_ledger, write_ledger}

abbrev pub total_deposited : List (ℕ × UserCollateral) → ℕ
total_deposited [] = 0
total_deposited ((k, u) ∷ ls) = u.deposited + total_deposited ls

abbrev pub deposit_of : Option UserCollateral → ℕ
deposit_of none = 0
deposit_of (some u) = u.deposited

-- Writing a ledger changes the total by what it changes of that ledger, created by it or not.
pub total_deposited-put_ledger :
    (ls : List (ℕ × UserCollateral)) (key : ℕ) (v : UserCollateral)
    → total_deposited (put_ledger ls key v) + deposit_of (find_ledger ls key)
      ≡ total_deposited ls + v.deposited
total_deposited-put_ledger [] key v = omega arith
total_deposited-put_ledger ((k, u) ∷ ls) key v = elim (Bool-cases (k == key)) [
  | inl h ↦ rw h (omega arith)
  | inr h ↦ rw h (omega (arith, total_deposited-put_ledger ls key v))
]

pub total_deposited-write_ledger :
    (ls : List (ℕ × UserCollateral)) (key : ℕ) (o : Option UserCollateral)
    → deposit_of o ≡ deposit_of (find_ledger ls key)
    → total_deposited (write_ledger ls key o) ≡ total_deposited ls
total_deposited-write_ledger ls key none h = refl
total_deposited-write_ledger ls key (some v) h = omega (arith, total_deposited-put_ledger ls key v)

pub find_ledger-put_ledger :
    (ls : List (ℕ × UserCollateral)) (key k : ℕ) (v : UserCollateral)
    → key ≢ k
    → find_ledger (put_ledger ls key v) k ≡ find_ledger ls k
find_ledger-put_ledger [] key k v h = elim (Bool-cases (key == k)) [
  | inl e ↦ absurd (h (ground arith))
  | inr e ↦ rw e refl
]
find_ledger-put_ledger ((j, u) ∷ ls) key k v h = elim (Bool-cases (j == key)) [
  | inl e ↦ elim (Bool-cases (j == k)) [
    | inl e1 ↦ absurd (h (ground arith))
    | inr e1 ↦ rw (e, e1) refl
  ]
  | inr e ↦ elim (Bool-cases (j == k)) [
    | inl e1 ↦ rw (e, e1) refl
    | inr e1 ↦ rw (e, e1) (find_ledger-put_ledger ls key k v h)
  ]
]
