-- ===== src/Funding/Rate.antt =====
-- programs/fructus/src/funding.rs: the rate is bounded, odd and monotone in the premium, and the two
-- sides of a payment cancel.
use fructus.Base.{ℕ, zero, suc, ◌*◌, ◌≤◌, ◌<◌, ◌≡◌, refl, ap, arith, u64_size}
use fructus.Int.{
  ℤ, pos, negsuc, ◌*ℤ◌, neg, ◌≤ℤ◌, abs, quot, i128_size, saturating_i128, clamp_sym, IsI128,
}
use fructus.Int.Laws.{
  abs-*ℤ, abs-quot, abs-neg_ℕ, quot-neg, clamp_sym-neg, clamp_sym_bounds, clamp_sym_mono,
  saturating_i128_exact, IsI128-of_abs,
}
use fructus.Constants.{apy_scale, funding_k_max, max_funding_max}
use fructus.Funding.{SideFlow, funding_rate, funding_payment, multiplier}

*ℤ-neg : (k : ℕ) (a : ℤ) → pos k *ℤ neg a ≡ neg (pos k *ℤ a)
unfolding ◌*ℤ◌ neg
*ℤ-neg k (pos zero) = ground arith
*ℤ-neg k (pos (suc n)) = ground arith
*ℤ-neg k (negsuc n) = ground arith

abs-neg : (a : ℤ) → abs (neg a) ≡ abs a
unfolding neg
abs-neg (pos n) = abs-neg_ℕ n
abs-neg (negsuc n) = refl

mul-lt : (a b m n : ℕ) → a ≤ m → b < n → 0 < m → a * b < m * n
mul-lt a b m n h k z = grind arith

-- With a valid `funding_k` and a premium of two `u64` prices the product is an `i128`.
product-IsI128 : (k : ℕ) (p : ℤ) → k ≤ funding_k_max → abs p < u64_size → IsI128 (pos k *ℤ p)
product-IsI128 k p h b =
    IsI128-of_abs (pos k *ℤ p)
      (omega (arith, abs-*ℤ (pos k) p, mul-lt k (abs p) funding_k_max u64_size h b (omega arith)))

-- On that domain the rate is the clamped truncated quotient of the exact product.
pub funding_rate_exact :
    (p : ℤ) (k cap : ℕ)
    → k ≤ funding_k_max
    → abs p < u64_size
    → funding_rate p k cap ≡ clamp_sym cap (quot (pos k *ℤ p) (pos apy_scale))
unfolding funding_rate
funding_rate_exact p k cap h b =
    ap (λ z. clamp_sym cap (quot z (pos apy_scale)))
      (saturating_i128_exact (pos k *ℤ p) (product-IsI128 k p h b))

-- Whatever the premium and the speed, the rate lies within the cap on either side.
pub funding_rate_bounds : (p : ℤ) (k cap : ℕ) → abs (funding_rate p k cap) ≤ cap
unfolding funding_rate
funding_rate_bounds p k cap = clamp_sym_bounds cap _

-- For a valid speed and a premium below 2 ^ 64 the rate is odd: the opposite premium gives exactly the
-- opposite rate.
pub funding_rate-neg :
    (p : ℤ) (k cap : ℕ)
    → k ≤ funding_k_max
    → abs p < u64_size
    → funding_rate (neg p) k cap ≡ neg (funding_rate p k cap)
funding_rate-neg p k cap h b =
    rw
      (
        funding_rate_exact (neg p) k cap h (omega (arith, abs-neg p)),
        funding_rate_exact p k cap h b,
        *ℤ-neg k p,
        quot-neg (pos k *ℤ p) apy_scale,
      )
      (clamp_sym-neg cap (quot (pos k *ℤ p) (pos apy_scale)))

mul-le-mul_left : (a b e : ℕ) → a ≤ b → a * e ≤ b * e
mul-le-mul_left a b e h = grind arith

mul_mono : (k a b : ℕ) → a ≤ b → k * a ≤ k * b
mul_mono k a b h = grind arith

scaled_mono :
    (k : ℕ) (a b : ℤ)
    → a ≤ℤ b
    → quot (pos k *ℤ a) (pos apy_scale) ≤ℤ quot (pos k *ℤ b) (pos apy_scale)
unfolding ◌*ℤ◌ quot
scaled_mono k (pos a) (pos b) h = omega (arith, mul_mono k a b (omega arith))
scaled_mono k (pos a) (negsuc b) h = absurd (omega arith)
scaled_mono k (negsuc a) (pos b) h = ground arith
scaled_mono k (negsuc a) (negsuc b) h = ground (arith, mul_mono k (suc b) (suc a) (omega arith))

-- For a valid speed and premiums below 2 ^ 64, a higher premium never gives a lower rate.
pub funding_rate_mono :
    (p q : ℤ) (k cap : ℕ)
    → k ≤ funding_k_max
    → abs p < u64_size
    → abs q < u64_size
    → p ≤ℤ q
    → funding_rate p k cap ≤ℤ funding_rate q k cap
funding_rate_mono p q k cap h b c le =
    rw (funding_rate_exact p k cap h b, funding_rate_exact q k cap h c)
      (clamp_sym_mono cap _ _ (scaled_mono k p q le))

times_side :
    (z : ℤ)
    → abs z < i128_size
    → saturating_i128 (z *ℤ multiplier SideFlow.long)
      ≡ neg (saturating_i128 (z *ℤ multiplier SideFlow.short))
unfolding ◌*ℤ◌ neg multiplier
times_side (pos n) h = ground arith
times_side (negsuc n) h = ground arith

saturating-abs-lt : (z : ℤ) → abs z < i128_size → abs (saturating_i128 z) < i128_size
saturating-abs-lt (pos n) h = ground arith
saturating-abs-lt (negsuc n) h = ground arith

-- For the same notional, rate and epochs, below the overflow of `i128`, what the long side pays is
-- exactly what the short side receives.
pub funding_payment_opposite :
    (notional : ℕ) (rate : ℤ) (epochs : ℕ)
    → notional < u64_size
    → abs rate ≤ max_funding_max
    → notional * epochs < i128_size
    → funding_payment notional rate epochs SideFlow.long
      ≡ neg (funding_payment notional rate epochs SideFlow.short)
unfolding funding_payment
funding_payment_opposite n r e hn hr he =
    let unsided = quot (saturating_i128 (pos n *ℤ r)) (pos apy_scale) *ℤ pos e in
    times_side (saturating_i128 unsided) (saturating-abs-lt unsided small)
  where
    whole : saturating_i128 (pos n *ℤ r) ≡ pos n *ℤ r
    whole = saturating_i128_exact (pos n *ℤ r) (
        IsI128-of_abs (pos n *ℤ r)
          (omega (arith, abs-*ℤ (pos n) r, mul_mono n (abs r) max_funding_max hr)))

    scaled : abs (quot (saturating_i128 (pos n *ℤ r)) (pos apy_scale)) ≤ n
    scaled = rw whole (
        omega (
          arith,
          abs-quot (pos n *ℤ r) (pos apy_scale),
          abs-*ℤ (pos n) r,
          mul_mono n (abs r) max_funding_max hr,
        ))

    small : abs (quot (saturating_i128 (pos n *ℤ r)) (pos apy_scale) *ℤ pos e) < i128_size
    small =
        let q = abs (quot (saturating_i128 (pos n *ℤ r)) (pos apy_scale)) in
        let le : q * e ≤ n * e = mul-le-mul_left q n e scaled in
        omega (arith, abs-*ℤ (quot (saturating_i128 (pos n *ℤ r)) (pos apy_scale)) (pos e))
