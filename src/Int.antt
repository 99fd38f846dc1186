-- ===== src/Int.antt =====
-- Signed integers over the native numbers, and the operations of Rust's `i128` on them: checked,
-- saturating, truncating.
pub mod Laws
use fructus.Base.{
  ℕ, suc, ◌+◌, ◌-◌, ◌*◌, ◌/◌, ◌≤◌, ◌≡◌, Bool, true, false, Option, none, some, ltb, leb, ◌==◌,
  if◌then◌else◌, u64_size,
}

-- `negsuc n` is -(n + 1).
pub data ℤ : Type 0 where
  pos : ℕ → ℤ
  negsuc : ℕ → ℤ

abbrev pub pos_part : ℤ → ℕ
pos_part (pos n) = n
pos_part (negsuc n) = 0

abbrev pub neg_part : ℤ → ℕ
neg_part (pos n) = 0
neg_part (negsuc n) = suc n

-- a - b, as an integer.
abbrev pub sub_ℕ : ℕ → ℕ → ℤ
sub_ℕ a b = if leb b a then pos (a - b) else negsuc (b - a - 1)

-- -n.
abbrev pub neg_ℕ : ℕ → ℤ
neg_ℕ n = sub_ℕ 0 n

infixl 65 ◌+ℤ◌
infixl 70 ◌*ℤ◌
infix 50 ◌≤ℤ◌
unfoldable pub ◌+ℤ◌ : ℤ → ℤ → ℤ
a +ℤ b = sub_ℕ (pos_part a + pos_part b) (neg_part a + neg_part b)

unfoldable pub ◌*ℤ◌ : ℤ → ℤ → ℤ
pos a *ℤ pos b = pos (a * b)
pos a *ℤ negsuc b = neg_ℕ (a * suc b)
negsuc a *ℤ pos b = neg_ℕ (suc a * b)
negsuc a *ℤ negsuc b = pos (suc a * suc b)

unfoldable pub neg : ℤ → ℤ
neg (pos n) = neg_ℕ n
neg (negsuc n) = pos (suc n)

abbrev pub ◌≤ℤ◌ : ℤ → ℤ → Type 0
a ≤ℤ b = pos_part a + neg_part b ≤ pos_part b + neg_part a

abbrev pub ltb_ℤ : ℤ → ℤ → Bool
ltb_ℤ a b = ltb (pos_part a + neg_part b) (pos_part b + neg_part a)

-- `unsigned_abs`
abbrev pub abs : ℤ → ℕ
abs (pos n) = n
abs (negsuc n) = suc n

-- Division truncating towards zero.
unfoldable pub quot : ℤ → ℤ → ℤ
quot (pos a) (pos b) = pos (a / b)
quot (pos a) (negsuc b) = neg_ℕ (a / suc b)
quot (negsuc a) (pos b) = neg_ℕ (suc a / b)
quot (negsuc a) (negsuc b) = pos (suc a / suc b)

-- 2 ^ 127: the integers of `i128` are those from -2 ^ 127 up to 2 ^ 127 - 1.
abbrev pub i128_size : ℕ
i128_size = 170_141_183_460_469_231_731_687_303_715_884_105_728

-- The result where it is an `i128`.
abbrev pub checked_i128 : ℤ → Option ℤ
checked_i128 (pos n) = if ltb n i128_size then some (pos n) else none
checked_i128 (negsuc n) = if ltb n i128_size then some (negsuc n) else none

-- The result, or the nearest `i128`.
abbrev pub saturating_i128 : ℤ → ℤ
saturating_i128 (pos n) = if ltb n i128_size then pos n else pos (i128_size - 1)
saturating_i128 (negsuc n) = if ltb n i128_size then negsuc n else negsuc (i128_size - 1)

-- `checked_div`: by zero, and -2 ^ 127 by -1, give nothing.
abbrev pub checked_quot : ℤ → ℤ → Option ℤ
checked_quot a b = if abs b == 0 then none else checked_i128 (quot a b)

-- `clamp(-cap, cap)`
unfoldable pub clamp_sym : ℕ → ℤ → ℤ
clamp_sym cap (pos n) = if ltb cap n then pos cap else pos n
clamp_sym cap (negsuc n) = if ltb n cap then negsuc n else neg_ℕ cap

-- `u64::try_from(z).ok()`
abbrev pub try_u64 : ℤ → Option ℕ
try_u64 (pos n) = if ltb n u64_size then some n else none
try_u64 (negsuc n) = none

-- A number that is an `i128`.
abbrev pub IsI128 : ℤ → Type 0
IsI128 z = (pos_part z + 1 ≤ i128_size) × (neg_part z ≤ i128_size)
