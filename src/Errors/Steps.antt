-- ===== src/Errors/Steps.antt =====
-- Inversion of the steps that the handlers are made of: what a step that did not fail has checked, and
-- what it goes on with.
use fructus.Base.{
  ℕ, ◌+◌, ◌-◌, ◌≤◌, ◌<◌, ◌≡◌, refl, Bool, true, false, Option, none, some, arith, checked_add,
  checked_sub,
}
use fructus.Errors.{Result, ok, FructusError, require, ok_or, ◌>>=◌, ◌>>◌}

pub ok-injective {ℓ} : {A : Type ℓ} {a b : A} → ok a ≡ ok b → a ≡ b
ok-injective h = cc

pub require-eq-ok {ℓ} :
    {B : Type ℓ} (t : Bool) (e : FructusError) (k : Result B) {b : B}
    → (require t e >> k) ≡ ok b
    → (t ≡ true) × (k ≡ ok b)
require-eq-ok true e k h = (refl, h)
require-eq-ok false e k h = cc

pub ok_or-eq-ok {ℓ κ} :
    {A : Type ℓ} {B : Type κ} (o : Option A) (e : FructusError) (f : A → Result B) {b : B}
    → (ok_or o e >>= f) ≡ ok b
    → (a : A) × (o ≡ some a) × (f a ≡ ok b)
ok_or-eq-ok none e f h = cc
ok_or-eq-ok (some a) e f h = (a, refl, h)

module _ {ℓ} {B : Type ℓ} where
  pub ok_or-checked_sub :
      (a c : ℕ) (e : FructusError) (f : ℕ → Result B) {b : B}
      → (ok_or (checked_sub a c) e >>= f) ≡ ok b
      → (c ≤ a) × (f (a - c) ≡ ok b)
  ok_or-checked_sub a c e f h = ground arith

  pub ok_or-checked_add :
      (size a c : ℕ) (e : FructusError) (f : ℕ → Result B) {b : B}
      → (ok_or (checked_add size a c) e >>= f) ≡ ok b
      → (a + c < size) × (f (a + c) ≡ ok b)
  ok_or-checked_add size a c e f h = ground arith
