-- ===== src/Positions/Pnl.antt =====
-- programs/fructus/src/positions.rs: what `pnl` gives the two sides of one position, and what a long can
-- lose.
use fructus.Base.{
  ℕ, zero, suc, ◌+◌, ◌-◌, ◌*◌, ◌/◌, ◌≤◌, ◌<◌, ◌≡◌, refl, sym, ap, subst, ◌∙◌, Bool, true, false,
  ◌||◌, none, some, arith, ◌==◌, if◌then◌else◌, checked_mul, u128_size,
}
use mathlib.Core.Option.{some-injective}
use native.Mathlib.Nat.{div-zero, zero-div, div-lt_iff_lt-mul}
use fructus.Base.Options.{refuse, >>=-eq-some}
use fructus.Int.{
  ℤ, pos, negsuc, neg_part, neg_ℕ, sub_ℕ, neg, ◌*ℤ◌, abs, quot, i128_size, checked_i128,
  checked_quot,
}
use fructus.Int.Laws.{abs-neg_ℕ, abs-quot, checked_i128_exact, IsI128-of_abs}
use fructus.Constants.{apy_scale}
use fructus.Positions.Margin.{mul-le-mul_right}
use fructus.Positions.{PositionSide, normalize_sums, signed_yield_change, pnl}

checked_i128-eq-some : (a : ℤ) {z : ℤ} → checked_i128 a ≡ some z → (z ≡ a) × (abs z ≤ i128_size)
checked_i128-eq-some (pos n) e = ground arith
checked_i128-eq-some (negsuc n) e = ground arith

checked_quot-eq-some :
    (a b : ℤ) {z : ℤ} → checked_quot a b ≡ some z → (z ≡ quot a b) × (abs z ≤ i128_size)
checked_quot-eq-some a b e = by_zero (abs b == 0) e
  where
    by_zero :
        (t : Bool) {z : ℤ}
        → (if t then none else checked_i128 (quot a b)) ≡ some z
        → (z ≡ quot a b) × (abs z ≤ i128_size)
    by_zero true e = cc
    by_zero false e = checked_i128-eq-some (quot a b) e

abs-neg : (a : ℤ) → abs (neg a) ≡ abs a
unfolding neg
abs-neg (pos n) = abs-neg_ℕ n
abs-neg (negsuc n) = refl

-- The negative parts of what `pnl` computes with.
neg_part-neg_ℕ : (n : ℕ) → neg_part (neg_ℕ n) ≡ n
neg_part-neg_ℕ n = ground arith

neg_part-sub_ℕ : (a b : ℕ) → neg_part (sub_ℕ a b) ≡ b - a
neg_part-sub_ℕ a b = ground arith

neg_part-mul_right : (a : ℤ) (n : ℕ) → neg_part (a *ℤ pos n) ≡ neg_part a * n
unfolding ◌*ℤ◌
neg_part-mul_right (pos a) n = ground arith
neg_part-mul_right (negsuc a) n = neg_part-neg_ℕ (suc a * n)

neg_part-mul_left : (n : ℕ) (a : ℤ) → neg_part (pos n *ℤ a) ≡ n * neg_part a
unfolding ◌*ℤ◌
neg_part-mul_left n (pos a) = ground arith
neg_part-mul_left n (negsuc a) = neg_part-neg_ℕ (n * suc a)

neg_part-quot : (a : ℤ) (n : ℕ) → neg_part (quot a (pos n)) ≡ neg_part a / n
unfolding quot
neg_part-quot (pos a) n = sym (zero-div n)
neg_part-quot (negsuc a) n = neg_part-neg_ℕ (suc a / n)

div_le : (a b c : ℕ) → a ≤ c * b → a / b ≤ c
div_le a zero c h = omega (arith, div-zero a)
div_le a (suc b) c h =
    let bound : a < (c + 1) * suc b = grind (arith, h) in
    let below : a / suc b < c + 1 = (div-lt_iff_lt-mul (omega arith)).1 bound in
    omega (arith, below)

-- A price cannot fall by more than itself: the change is at least -1, scaled.
signed_yield_change_bounds :
    (n d cur_n cur_d : ℕ) {z : ℤ}
    → signed_yield_change n d cur_n cur_d ≡ some z
    → neg_part z ≤ apy_scale
unfolding signed_yield_change
signed_yield_change_bounds n d cur_n cur_d e =
    let n_e : ℕ = (normalize_sums n d).0 in
    let d_e : ℕ = (normalize_sums n d).1 in
    let (x, h0, e0) = >>=-eq-some (refuse (n_e == 0 || d_e == 0 || cur_n == 0 || cur_d == 0)) _ e in
    let (cur_x, h1, e1) = >>=-eq-some (checked_mul u128_size cur_n d_e) _ e0 in
    let (entry_x, h2, e2) = >>=-eq-some (checked_mul u128_size n_e cur_d) _ e1 in
    let (scaled, h3, e3) = >>=-eq-some (checked_i128 (sub_ℕ cur_x entry_x *ℤ pos apy_scale)) _ e2 in
    let (same, small) = checked_i128-eq-some (sub_ℕ cur_x entry_x *ℤ pos apy_scale) h3 in
    let fall : neg_part scaled ≡ (entry_x - cur_x) * apy_scale =
      ap neg_part same
      ∙ neg_part-mul_right (sub_ℕ cur_x entry_x) apy_scale
      ∙ ap (λ k. k * apy_scale) (neg_part-sub_ℕ cur_x entry_x) in
    let at_most : neg_part scaled ≤ apy_scale * entry_x = omega (arith, fall) in
    subst (λ w. neg_part w ≤ apy_scale) (some-injective _ _ e3)
      (subst (λ k. k ≤ apy_scale) (sym (neg_part-quot scaled entry_x))
        (div_le (neg_part scaled) entry_x apy_scale at_most))

-- Whenever a long has a PnL, the short of the same notional and entry has the opposite one: the two sides of a
-- trade gain and lose the same. A long never loses more than its notional, so a short never gains more.
pub pnl_opposite :
    (n d cur_n cur_d notional : ℕ) {z : ℤ}
    → pnl n d cur_n cur_d notional PositionSide.long ≡ some z
    → (pnl n d cur_n cur_d notional PositionSide.short ≡ some (neg z)) × (neg_part z ≤ notional)
unfolding pnl
pnl_opposite n d cur_n cur_d notional {z} e =
    let (change, h, e1) = >>=-eq-some (signed_yield_change n d cur_n cur_d) _ e in
    let (product, h1, e2) = >>=-eq-some (checked_i128 (pos notional *ℤ change)) _ e1 in
    let (scaled, h2, e3) = >>=-eq-some (checked_quot product (pos apy_scale)) _ e2 in
    let (p1, p2) = checked_i128-eq-some (pos notional *ℤ change) h1 in
    let (q1, q2) = checked_quot-eq-some product (pos apy_scale) h2 in
    let size : abs scaled ≡ abs product / apy_scale =
      ap abs q1 ∙ abs-quot product (pos apy_scale) in
    let size1 : abs (neg scaled) < i128_size = omega (arith, abs-neg scaled, size, p2) in
    let same : scaled ≡ z = some-injective scaled z e3 in
    let opposite : checked_i128 (neg scaled) ≡ some (neg scaled) =
      checked_i128_exact (neg scaled) (IsI128-of_abs (neg scaled) size1) in
    let fall : neg_part product ≡ notional * neg_part change =
      ap neg_part p1 ∙ neg_part-mul_left notional change in
    let change_fall : neg_part change ≤ apy_scale = signed_yield_change_bounds n d cur_n cur_d h in
    let fall1 : neg_part scaled ≡ neg_part product / apy_scale =
      ap neg_part q1 ∙ neg_part-quot product apy_scale in
    let bound : notional * neg_part change ≤ notional * apy_scale =
      mul-le-mul_right notional (neg_part change) apy_scale change_fall in
    (
      rw (h, h1, h2, pnl) (opposite ∙ ap (λ w. some (neg w)) same),
      subst (λ w. neg_part w ≤ notional) same (omega (arith, fall, fall1, bound)),
    )
