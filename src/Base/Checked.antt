-- ===== src/Base/Checked.antt =====
-- What a checked operation that gave a value was given, and when it gives one.
use Prim.Native.Nat.{ℕ, ◌-◌, ◌*◌, ◌/◌, ◌+◌, ◌≤◌, ◌<◌}
use mathlib.Core.Path.{◌≡◌}
use mathlib.Core.Bool.{Bool, false, ◌||◌}
use mathlib.Core.Option.{some}
use native.Mathlib.Omega.{arith}
use fructus.Base.Tests.{◌==◌}
use fructus.Base.Words.{checked_sub, checked_mul, checked_div, checked_add, try_from}
use fructus.Base.Options.{refuse}

pub checked_sub-eq-some : (a b : ℕ) {c : ℕ} → checked_sub a b ≡ some c → (b ≤ a) × (c ≡ a - b)
checked_sub-eq-some a b e = ground arith

pub checked_mul-eq-some : (size a b : ℕ) {c : ℕ} → checked_mul size a b ≡ some c → c ≡ a * b
checked_mul-eq-some size a b e = ground arith

pub checked_add-eq-some : (size a b : ℕ) {c : ℕ} → checked_add size a b ≡ some c → c ≡ a + b
checked_add-eq-some size a b e = ground arith

pub checked_div-eq-some : (a b : ℕ) {c : ℕ} → checked_div a b ≡ some c → c ≡ a / b
checked_div-eq-some a b e = ground arith

pub try_from-eq-some : (size a : ℕ) {c : ℕ} → try_from size a ≡ some c → c ≡ a
try_from-eq-some size a e = ground arith

pub refuse-some : (a : ℕ) {u : Unit {0}} → refuse (a == 0) ≡ some u → 0 < a
refuse-some a e = ground arith

pub refuse-or-some : (a : ℕ) (b : Bool) {u : Unit {0}} → refuse (a == 0 || b) ≡ some u → 0 < a
refuse-or-some a b e = ground arith

pub checked_sub-le : (a b : ℕ) → b ≤ a → checked_sub a b ≡ some (a - b)
checked_sub-le a b h = ground arith

pub try_from-fits : (size a : ℕ) → a < size → try_from size a ≡ some a
try_from-fits size a h = ground arith

pub nonzero : (a : ℕ) → 0 < a → a == 0 ≡ false
nonzero a h = ground arith
