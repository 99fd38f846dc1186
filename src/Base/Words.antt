-- ===== src/Base/Words.antt =====
-- Rust's checked, saturating and wrapping operations on unsigned words: a word is a number, and the
-- operation is given the size of its type where that matters.
use Prim.Native.Nat.{ℕ, ◌+◌, ◌-◌, ◌*◌, ◌/◌, ◌%◌}
use mathlib.Core.Option.{Option, none, some}
use fructus.Base.Tests.{ltb, leb, ◌==◌, if◌then◌else◌}

abbrev pub u16_size : ℕ
u16_size = 65_536

abbrev pub u64_size : ℕ
u64_size = 18_446_744_073_709_551_616

abbrev pub u128_size : ℕ
u128_size = 340_282_366_920_938_463_463_374_607_431_768_211_456

-- `T::try_from(x).ok()`
abbrev pub try_from : ℕ → ℕ → Option ℕ
try_from size x = if ltb x size then some x else none

abbrev pub checked_add : ℕ → ℕ → ℕ → Option ℕ
checked_add size a b = try_from size (a + b)

abbrev pub checked_mul : ℕ → ℕ → ℕ → Option ℕ
checked_mul size a b = try_from size (a * b)

abbrev pub checked_sub : ℕ → ℕ → Option ℕ
checked_sub a b = if leb b a then some (a - b) else none

abbrev pub checked_div : ℕ → ℕ → Option ℕ
checked_div a b = if b == 0 then none else some (a / b)

abbrev pub saturating_sub : ℕ → ℕ → ℕ
saturating_sub a b = a - b

-- The sum or product, or the largest word of the type.
abbrev pub saturate : ℕ → ℕ → ℕ
saturate size x = if ltb x size then x else size - 1

abbrev pub saturating_add : ℕ → ℕ → ℕ → ℕ
saturating_add size a b = saturate size (a + b)

abbrev pub saturating_mul : ℕ → ℕ → ℕ → ℕ
saturating_mul size a b = saturate size (a * b)

abbrev pub wrapping_add : ℕ → ℕ → ℕ → ℕ
wrapping_add size a b = (a + b) % size

-- `a.min(b)`
abbrev pub min_of : ℕ → ℕ → ℕ
min_of a b = if leb a b then a else b

-- `a.max(b)`
abbrev pub max_of : ℕ → ℕ → ℕ
max_of a b = if leb a b then b else a
