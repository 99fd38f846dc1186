-- ===== src/Errors.antt =====
-- error.rs and the results of the handlers: `FructusError` with the two runtime errors that the
-- handlers raise themselves, `Result`, and `?` as a monad.
pub mod Steps
use fructus.Base.{◌≡◌, refl, ◌⊎◌, inl, inr, Bool, true, false, Option, none, some}

pub data FructusError : Type 0 where
  apy_too_high stale_version invalid_signature signature_missing : FructusError
  invalid_stake_pool invalid_funding_k invalid_max_funding invalid_initial_margin : FructusError
  invalid_maintenance_margin book_full book_already_initialized book_not_initialized : FructusError
  invalid_price invalid_size order_not_found order_owner_mismatch self_trade : FructusError
  invalid_mint insufficient_free_collateral vault_already_initialized : FructusError
  vault_not_initialized arithmetic_overflow position_not_found not_liquidatable : FructusError
  event_not_found invalid_close_size position_pda_squatted : FructusError

-- The errors that an instruction ends with: the program's own, and those of the runtime's
-- `ProgramError` that the handlers name; `constraint_violated` is any error of the framework on the
-- accounts, `panicked` a Rust panic, which aborts the instruction.
pub data Error : Type 0 where
  custom : FructusError → Error
  invalid_instruction_data invalid_account_data constraint_violated panicked : Error

-- A value, or the error with which the instruction ends.
pub data Result {ℓ} (T : Type ℓ) : Type ℓ where
  ok : T → Result T
  err : Error → Result T

pub Result-cases {ℓ} :
    {T : Type ℓ} (r : Result T) → ((t : T) × (r ≡ ok t)) ⊎ ((e : Error) × (r ≡ err e))
Result-cases (ok t) = inl (t, refl)
Result-cases (err e) = inr (e, refl)

-- `o.ok_or(e)`
abbrev pub ok_or {ℓ} : {T : Type ℓ} → Option T → FructusError → Result T
ok_or none e = err (custom e)
ok_or (some t) e = ok t

-- `r?` with the rest of the function in `next`.
infixl 5 ◌>>=◌
abbrev pub ◌>>=◌ {ℓ μ} : {T : Type ℓ} {U : Type μ} → Result T → (T → Result U) → Result U
err e >>= next = err e
ok t >>= next = next t

-- `require!(b, e)`
abbrev pub require : Bool → FructusError → Result (Unit {0})
require false e = err (custom e)
require true e = ok tt

infixl 5 ◌>>◌
abbrev pub ◌>>◌ {μ} : {U : Type μ} → Result (Unit {0}) → Result U → Result U
check >> next = check >>= λ _. next

-- What a step that did not fail has returned, and what the rest did with it.
pub >>=-eq-ok {ℓ μ} :
    {T : Type ℓ} {U : Type μ} (r : Result T) (next : T → Result U) {u : U}
    → (r >>= next) ≡ ok u
    → (t : T) × (r ≡ ok t) × (next t ≡ ok u)
>>=-eq-ok (err e) next h = cc
>>=-eq-ok (ok t) next h = (t, refl, h)
