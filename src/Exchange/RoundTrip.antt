-- ===== src/Exchange/RoundTrip.antt =====
-- programs/fructus/src/exchange.rs: what `read` finds in the bytes of a stake pool.
use fructus.Base.{
  ℕ, zero, suc, ◌+◌, ◌*◌, ◌/◌, ◌^◌, ◌<◌, ◌≡◌, refl, ap, ◌∙◌, some, List, [], ◌∷◌, ◌++◌, arith, leb,
  length, take, drop, true, subst, length-append, checked_add, u64_size,
}
use mathlib.Core.List.{append_assoc}
use native.Mathlib.Nat.{pow-suc}
use fructus.Base.Checked.{nonzero}
use fructus.State.{to_le_bytes}
use fructus.Exchange.{ExchangeRate, get_range, from_le_bytes, read_u64_le, read}

length-to_le_bytes : (n x : ℕ) → length (to_le_bytes n x) ≡ n
unfolding to_le_bytes
length-to_le_bytes zero x = refl
length-to_le_bytes (suc n) x = ap suc (length-to_le_bytes n (x / 256))

from_le_bytes-to_le_bytes : (n x : ℕ) → x < 256 ^ n → from_le_bytes (to_le_bytes n x) ≡ x
unfolding from_le_bytes to_le_bytes
from_le_bytes-to_le_bytes zero x h = omega arith
from_le_bytes-to_le_bytes (suc n) x h =
    let power : 256 ^ suc n ≡ 256 ^ n * 256 = pow-suc 256 n in
    let small : x < 256 ^ n * 256 = omega (arith, power, h) in
    let below : x / 256 < 256 ^ n = omega arith in
    omega (arith, from_le_bytes-to_le_bytes n (x / 256) below)

take-append {ℓ} : {A : Type ℓ} (xs ys : List A) → take (length xs) (xs ++ ys) ≡ xs
take-append [] ys = refl
take-append (x ∷ xs) ys = ap (λ l. x ∷ l) (take-append xs ys)

drop-append {ℓ} : {A : Type ℓ} (xs ys : List A) → drop (length xs) (xs ++ ys) ≡ ys
drop-append [] ys = refl
drop-append (x ∷ xs) ys = drop-append xs ys

pub get_range-append :
    (before range after : List ℕ) (from n : ℕ)
    → length before ≡ from
    → length range ≡ n
    → get_range (before ++ (range ++ after)) from n ≡ some range
unfolding get_range
get_range-append before range after from n h k =
    let fits : leb (from + n) (length (before ++ (range ++ after))) ≡ true =
      ground (arith, length-append before (range ++ after), length-append range after, h, k) in
    let found : take n (drop from (before ++ (range ++ after))) ≡ range =
      subst (λ m. take n (drop m (before ++ (range ++ after))) ≡ range) h
        (subst (λ m. take m (drop (length before) (before ++ (range ++ after))) ≡ range) k
          (ap (take (length range)) (drop-append before (range ++ after))
            ∙ take-append range after)) in
    rw fits (ap some found)

read_u64_le-encoded :
    (before after : List ℕ) (offset x : ℕ)
    → length before ≡ offset
    → offset + 8 < u64_size
    → x < u64_size
    → read_u64_le (before ++ (to_le_bytes 8 x ++ after)) offset ≡ some x
unfolding read_u64_le
read_u64_le-encoded before after offset x h small fits =
    let room : checked_add u64_size offset 8 ≡ some (offset + 8) = ground arith in
    rw
      (
        room,
        get_range-append before (to_le_bytes 8 x) after offset 8 h (length-to_le_bytes 8 x),
        from_le_bytes-to_le_bytes 8 x fits,
      )
      refl

-- The bytes of a stake pool's account: the discriminator 1, what stands before the two fields, the total of
-- lamports, the supply of pool tokens, and what stands behind them.
abbrev pub encode : List ℕ → ExchangeRate → List ℕ → List ℕ
encode before rate after =
    (1 ∷ before)
    ++ (to_le_bytes 8 rate.total_lamports ++ (to_le_bytes 8 rate.pool_token_supply ++ after))

-- `read` finds in the bytes of a stake pool the rate that was written there, whatever the other fields hold,
-- where both numbers are `u64` and the supply is not 0.
pub read-encode :
    (before after : List ℕ) (rate : ExchangeRate)
    → length before ≡ 257
    → rate.total_lamports < u64_size
    → rate.pool_token_supply < u64_size
    → 0 < rate.pool_token_supply
    → read (encode before rate after) ≡ some rate
unfolding read
read-encode before after rate h fits fits1 supply =
    let x : List ℕ = to_le_bytes 8 rate.total_lamports in
    let y : List ℕ = to_le_bytes 8 rate.pool_token_supply in
    let first : read_u64_le (encode before rate after) 258 ≡ some rate.total_lamports =
      read_u64_le-encoded (1 ∷ before) (y ++ after) 258 rate.total_lamports (omega (arith, h))
        (omega arith) fits in
    let long : length ((1 ∷ before) ++ x) ≡ 266 =
      omega (arith, length-append (1 ∷ before) x, length-to_le_bytes 8 rate.total_lamports, h) in
    let second : read_u64_le (encode before rate after) 266 ≡ some rate.pool_token_supply =
      subst (λ l. read_u64_le l 266 ≡ some rate.pool_token_supply)
        (append_assoc (1 ∷ before) x (y ++ after))
        (read_u64_le-encoded ((1 ∷ before) ++ x) after 266 rate.pool_token_supply long (omega arith)
          fits1) in
    rw (first, second, nonzero rate.pool_token_supply supply) refl
