-- ===== src/Handlers/Accounts.antt =====
-- programs/fructus/src/lib.rs: the structs under `#[derive(Accounts)]`, with the constraints that the
-- framework checks on them before the handler runs, as Boolean tests. This file has the accounts, the
-- constraints that the structs are made of, and the structs of the oracle.
pub mod Markets
pub mod Users
pub mod Settlements
pub mod Ownership
pub mod Oracles
use fructus.Base.{
  ℕ, ◌≡◌, refl, Bool, true, false, ◌&&◌, Option, none, some, List, [], ◌∷◌, ◌++◌, ◌==◌,
}
use fructus.Errors.{Result, ok, err, Error}
use fructus.State.{YieldOracle}
use fructus.Handlers.Runtime.{Runtime, oracle_seed}

-- An account as an instruction is handed it.
pub record Account : Type 0 where
  pub key : ℕ
  pub is_signer : Bool
  pub is_writable : Bool
  pub data_is_empty : Bool

-- `Account<'info, T>` and `AccountLoader<'info, T>`: the framework has read a `T` of the program's own.
pub record Loaded {ℓ} (T : Type ℓ) : Type ℓ where
  pub info : Account
  pub value : T

-- What the constraints use of the runtime besides the derivation of PDAs: the derivation with a given
-- bump, and the address of a wallet's token account of a mint.
pub record Framework : Type 0 where
  pub runtime : Runtime
  pub create_program_address : List (List ℕ) → Option ℕ
  pub associated_token_address : ℕ → ℕ → ℕ

-- `seeds = [..], bump`
abbrev pub at_seeds : Framework → List (List ℕ) → Account → Bool
at_seeds fw seeds a = (fw.runtime.find_program_address seeds).0 == a.key

abbrev pub is_address : Option ℕ → ℕ → Bool
is_address none key = false
is_address (some k) key = k == key

-- `seeds = [..], bump = b`
abbrev pub at_seeds_and_bump : Framework → List (List ℕ) → ℕ → Account → Bool
at_seeds_and_bump fw seeds b a =
    is_address (fw.create_program_address (seeds ++ (b ∷ []) ∷ [])) a.key

-- `init, payer = p`: the account is created, paid for by a writable signer.
abbrev pub inits : Account → Account → Bool
inits a payer = a.data_is_empty && a.is_writable && payer.is_signer && payer.is_writable

pub record Initialize : Type 0 where
  pub oracle : Account
  pub authority : Account

unfoldable pub admits_initialize : Framework → Initialize → Bool
admits_initialize fw c = at_seeds fw (oracle_seed ∷ []) c.oracle && inits c.oracle c.authority

pub record UpdateApy : Type 0 where
  pub oracle : Loaded YieldOracle

unfoldable pub admits_update_apy : Framework → UpdateApy → Bool
admits_update_apy fw c =
    c.oracle.info.is_writable
    && at_seeds_and_bump fw (oracle_seed ∷ []) c.oracle.value.bump c.oracle.info

pub record Admin : Type 0 where
  pub oracle : Loaded YieldOracle
  pub authority : Account

-- `has_one = authority`
unfoldable pub admits_admin : Framework → Admin → Bool
admits_admin fw c =
    c.oracle.info.is_writable
    && at_seeds_and_bump fw (oracle_seed ∷ []) c.oracle.value.bump c.oracle.info
    && c.oracle.value.authority == c.authority.key
    && c.authority.is_signer

-- An instruction: the constraints on its accounts, then its handler.
abbrev pub admitted {ℓ} : {A : Type ℓ} → Bool → Result A → Result A
admitted false r = err Error.constraint_violated
admitted true r = r

pub admitted-eq-ok {ℓ} :
    {A : Type ℓ} (b : Bool) (r : Result A) {a : A} → admitted b r ≡ ok a → (b ≡ true) × (r ≡ ok a)
admitted-eq-ok false r h = cc
admitted-eq-ok true r h = (refl, h)
