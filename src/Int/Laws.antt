-- ===== src/Int/Laws.antt =====
-- Laws of the signed operations: each operation by its parts, signs and magnitudes.
use fructus.Base.{
  ℕ, zero, suc, ◌+◌, ◌-◌, ◌*◌, ◌/◌, ◌≤◌, ◌<◌, ◌≡◌, refl, ap, Option, none, some, ltb, leb, arith,
  if◌then◌else◌,
}
use fructus.Int.{
  ℤ, pos, negsuc, pos_part, neg_part, neg_ℕ, ◌+ℤ◌, ◌*ℤ◌, neg, ◌≤ℤ◌, abs, quot, i128_size,
  checked_i128, saturating_i128, clamp_sym, IsI128,
}

pub eq_of_parts : (a b : ℤ) → pos_part a + neg_part b ≡ pos_part b + neg_part a → a ≡ b
eq_of_parts a b h = ground arith

pub +ℤ_parts :
    (a b : ℤ)
    → pos_part (a +ℤ b) + neg_part a + neg_part b ≡ neg_part (a +ℤ b) + pos_part a + pos_part b
unfolding ◌+ℤ◌
+ℤ_parts a b = ground arith

pub ruleset int_laws = (arith, +ℤ_parts, eq_of_parts)

pub neg-neg : (a : ℤ) → neg (neg a) ≡ a
unfolding neg
neg-neg (pos n) = ground arith
neg-neg (negsuc n) = ground arith

pub neg-neg_ℕ : (n : ℕ) → neg (neg_ℕ n) ≡ pos n
unfolding neg
neg-neg_ℕ n = ground arith

pub abs-neg_ℕ : (n : ℕ) → abs (neg_ℕ n) ≡ n
abs-neg_ℕ n = ground arith

-- The magnitude of a product or quotient is that of the magnitudes.
pub abs-*ℤ : (a b : ℤ) → abs (a *ℤ b) ≡ abs a * abs b
unfolding ◌*ℤ◌
abs-*ℤ (pos a) (pos b) = refl
abs-*ℤ (pos a) (negsuc b) = abs-neg_ℕ (a * suc b)
abs-*ℤ (negsuc a) (pos b) = abs-neg_ℕ (suc a * b)
abs-*ℤ (negsuc a) (negsuc b) = refl

pub abs-quot : (a b : ℤ) → abs (quot a b) ≡ abs a / abs b
unfolding quot
abs-quot (pos a) (pos b) = refl
abs-quot (pos a) (negsuc b) = abs-neg_ℕ (a / suc b)
abs-quot (negsuc a) (pos b) = abs-neg_ℕ (suc a / b)
abs-quot (negsuc a) (negsuc b) = refl

-- Both are odd in the first argument.
pub neg-*ℤ : (a : ℤ) (b : ℕ) → neg a *ℤ pos b ≡ neg (a *ℤ pos b)
unfolding ◌*ℤ◌ neg
neg-*ℤ (pos zero) b = ground arith
neg-*ℤ (pos (suc a)) b = ground arith
neg-*ℤ (negsuc a) b = ground (arith, neg-neg_ℕ (suc a * b))

pub quot-neg : (a : ℤ) (b : ℕ) → quot (neg a) (pos b) ≡ neg (quot a (pos b))
unfolding quot neg
quot-neg (pos zero) b = ground arith
quot-neg (pos (suc a)) b = ground arith
quot-neg (negsuc a) b = ground arith

pub clamp_sym-neg : (c : ℕ) (a : ℤ) → clamp_sym c (neg a) ≡ neg (clamp_sym c a)
unfolding clamp_sym neg
clamp_sym-neg c (pos zero) = ground arith
clamp_sym-neg c (pos (suc n)) = ground arith
clamp_sym-neg c (negsuc n) = ground arith

pub clamp_sym_bounds : (c : ℕ) (a : ℤ) → abs (clamp_sym c a) ≤ c
unfolding clamp_sym
clamp_sym_bounds c (pos n) = ground arith
clamp_sym_bounds c (negsuc n) = ground arith

-- Clamping keeps the order.
pub clamp_sym_mono : (c : ℕ) (a b : ℤ) → a ≤ℤ b → clamp_sym c a ≤ℤ clamp_sym c b
unfolding clamp_sym
clamp_sym_mono c (pos a) (pos b) h = ground arith
clamp_sym_mono c (pos a) (negsuc b) h = ground arith
clamp_sym_mono c (negsuc a) (pos b) h = ground arith
clamp_sym_mono c (negsuc a) (negsuc b) h = ground arith

-- Within the range of `i128` the checked and the saturating operation give the exact result.
pub checked_i128_exact : (z : ℤ) → IsI128 z → checked_i128 z ≡ some z
checked_i128_exact (pos n) h = ground arith
checked_i128_exact (negsuc n) h = ground arith

pub saturating_i128_exact : (z : ℤ) → IsI128 z → saturating_i128 z ≡ z
saturating_i128_exact (pos n) h = ground arith
saturating_i128_exact (negsuc n) h = ground arith

pub IsI128-of_abs : (z : ℤ) → abs z < i128_size → IsI128 z
IsI128-of_abs (pos n) h = ground arith
IsI128-of_abs (negsuc n) h = ground arith
