-- ===== src/Positions/Margin.antt =====
-- programs/fructus/src/positions.rs: `margin_required` is the ceiling of its quotient, total on the
-- margins that a market can have, and monotone.
use fructus.Base.{ℕ, ◌+◌, ◌*◌, ◌/◌, ◌≤◌, ◌<◌, ◌≡◌, none, some, arith, u64_size, u128_size}
use fructus.Constants.{max_margin_bps}
use fructus.Positions.{margin_required}

-- The ceiling of `notional * bps / 10_000`.
abbrev pub margin_of : ℕ → ℕ → ℕ
margin_of notional bps = (notional * bps + 9_999) / 10_000

pub mul-le-mul_right : (n a b : ℕ) → a ≤ b → n * a ≤ n * b
mul-le-mul_right n a b h = grind arith

pub mul-le-mul_left : (a b n : ℕ) → a ≤ b → a * n ≤ b * n
mul-le-mul_left a b n h = grind arith

pub margin_of-le : (notional bps : ℕ) → bps ≤ max_margin_bps → margin_of notional bps ≤ notional
margin_of-le n b h = omega (arith, mul-le-mul_right n b 10_000 h)

pub margin_of_mono : (n m bps : ℕ) → n ≤ m → margin_of n bps ≤ margin_of m bps
margin_of_mono n m b h = omega (arith, mul-le-mul_left n m b h)

pub margin_of_mono_bps : (n a b : ℕ) → a ≤ b → margin_of n a ≤ margin_of n b
margin_of_mono_bps n a b h = omega (arith, mul-le-mul_right n a b h)

-- On a `u64` notional and a margin of at most 100% the result is the ceiling.
pub margin_required_eq :
    (notional bps : ℕ)
    → notional < u64_size
    → bps ≤ max_margin_bps
    → margin_required notional bps ≡ some (margin_of notional bps)
unfolding margin_required
margin_required_eq n b h k = ground (arith, mul-le-mul_right n b 10_000 k)

-- For a `u64` notional and a margin of at most 100%, `margin_required` succeeds with the least amount
-- that backs the notional at that ratio: implied leverage stays within the cap, and one unit less would
-- not. It is at most the notional.
pub margin_required_least :
    (notional bps : ℕ)
    → notional < u64_size
    → bps ≤ max_margin_bps
    → (m : ℕ) × (margin_required notional bps ≡ some m)
      × (notional * bps ≤ m * 10_000)
      × (m * 10_000 < notional * bps + 10_000)
      × (m ≤ notional)
margin_required_least n b h k =
    (margin_of n b, margin_required_eq n b h k, omega arith, omega arith, margin_of-le n b k)

-- A larger notional never requires less margin, so an open only adds to the reserve and a close only
-- releases from it.
pub margin_required_mono :
    (n m bps : ℕ) {a b : ℕ}
    → n ≤ m
    → margin_required n bps ≡ some a
    → margin_required m bps ≡ some b
    → a ≤ b
unfolding margin_required
margin_required_mono n m bps h p q = ground (arith, mul-le-mul_left n m bps h)

-- The function is not total on `u64 × u16`: where the quotient does not fit `u64`, which a ratio above
-- 100% allows, the result is `none` although no `u128` operation overflows.
pub margin_required_partial :
    (notional bps : ℕ)
    → u64_size * 10_000 ≤ notional * bps
    → notional * bps + 9_999 < u128_size
    → margin_required notional bps ≡ none
unfolding margin_required
margin_required_partial n b h k = ground arith
