-- ===== src/Orderbook/Twap/Steady.antt =====
-- programs/fructus/src/orderbook.rs: `twap` of a mid that does not move.
use fructus.Base.{
  ℕ, Option, u128_size, ◌+◌, ◌-◌, ◌*◌, ◌≤◌, ◌<◌, ◌≡◌, refl, ap, ◌∙◌, false, ◌||◌, some, List, [],
  ◌∷◌, arith, ◌==◌, All, get_elem?, checked_sub, u64_size,
}
use native.Mathlib.Nat.{mul-div_cancel}
use fructus.Base.Options.{◌>>=◌, refuse}
use fructus.Base.Checked.{checked_sub-le, try_from-fits, nonzero}
use fructus.Orderbook.Defs.{Observation}
use fructus.Orderbook.Twap.{find_slot, is_empty, cumulative_at, twap}
use fructus.Orderbook.Twap.Answers.{Recorded, cumulative_at-answers}
use fructus.Orderbook.Twap.Searches.{not_empty}
use fructus.Orderbook.Twap.Line.{
  Steady, IsSteady, distribute, find_slot-Steady, cumulative_at-Steady,
}

>>=-some {ℓ μ} :
    {T : Type ℓ} {U : Type μ} (o : Option T) (next : T → Option U) {t : T} {r : Option U}
    → o ≡ some t
    → next t ≡ r
    → (o >>= next) ≡ r
>>=-some o next e h = rw e h

-- Two readings of the line, as far apart as the window.
averaged :
    (m x y : ℕ) (os : List Observation) (window_slots start_slot : ℕ) {cum_now cum_start : ℕ}
    → is_empty os ≡ false
    → cumulative_at os (start_slot + window_slots) ≡ some cum_now
    → cumulative_at os start_slot ≡ some cum_start
    → Steady m x y (start_slot + window_slots) cum_now
    → Steady m x y start_slot cum_start
    → 0 < window_slots
    → m < u64_size
    → twap os window_slots (start_slot + window_slots) ≡ some m
unfolding twap
averaged m x y os window_slots start_slot {cum_now} {cum_start} some_sample e e1 k k1 wide fits =
    let now_slot : ℕ = start_slot + window_slots in
    let spread : m * now_slot ≡ m * start_slot + m * window_slots =
      distribute m x y start_slot window_slots in
    let rising : cum_start ≤ cum_now = omega (arith, k, k1, spread) in
    let risen : cum_now - cum_start ≡ m * window_slots = omega (arith, k, k1, spread) in
    let start : checked_sub now_slot window_slots ≡ some start_slot =
      checked_sub-le now_slot window_slots (omega arith) ∙ ap some (omega arith) in
    let rise : checked_sub cum_now cum_start ≡ some (m * window_slots) =
      checked_sub-le cum_now cum_start rising ∙ ap some risen in
    let checked : refuse (window_slots == 0 || is_empty os) ≡ some tt =
      rw (nonzero window_slots wide, some_sample) refl in
    >>=-some (refuse (window_slots == 0 || is_empty os)) _ checked (
      >>=-some (checked_sub now_slot window_slots) _ start (
        >>=-some (cumulative_at os now_slot) _ e (
          >>=-some (cumulative_at os start_slot) _ e1 (
            >>=-some (checked_sub cum_now cum_start) _ rise
              (rw (mul-div_cancel m wide) (try_from-fits u64_size m fits))))))

-- The average of a mid that does not move exists and is that mid, whether the window begins and ends on recorded
-- samples, between them or behind the last: where the samples lie on one line that rises by `m` a slot, `m` a
-- `u64`, the first of two samples is no later than the start of a window that is not empty, no slot is beyond
-- `latest`, and the accumulator and its products up to there are `u128`.
pub twap-Steady :
    (m x y latest : ℕ) (os : List Observation) (window_slots start_slot : ℕ) (i j : ℕ)
    (a b : Observation)
    → All (Recorded m x y latest) os
    → get_elem? os i ≡ some a
    → get_elem? os j ≡ some b
    → a.slot < b.slot
    → a.slot ≤ start_slot
    → 0 < window_slots
    → start_slot + window_slots ≤ latest
    → m < u64_size
    → m * latest * latest < u128_size
    → m * latest + y < u128_size
    → twap os window_slots (start_slot + window_slots) ≡ some m
twap-Steady m x y latest os window_slots start_slot i j a b h at_a at_b apart behind wide within
      fits fits1 fits2 =
    let now_slot : ℕ = start_slot + window_slots in
    let steady : All (IsSteady m x y) os = on_line os h in
    let (cum_now, e) =
      cumulative_at-answers m x y latest os i j a b now_slot (fits1, fits2) h at_a at_b apart
        (omega arith) within in
    let (cum_start, e1) =
      cumulative_at-answers m x y latest os i j a b start_slot (fits1, fits2) h at_a at_b apart
        behind (omega arith) in
    averaged m x y os window_slots start_slot (not_empty os i a at_a) e e1
      (cumulative_at-Steady m x y os now_slot steady e)
      (cumulative_at-Steady m x y os start_slot steady e1) wide fits
  where
    on_line : (ns : List Observation) → All (Recorded m x y latest) ns → All (IsSteady m x y) ns
    on_line [] h = tt
    on_line (n ∷ ns) h = (h.0.0, on_line ns h.1)

find_slot-cumulative_at :
    (slot : ℕ) (os : List Observation) (o : Observation)
    → find_slot slot os ≡ some o
    → (is_empty os ≡ false) × (cumulative_at os slot ≡ some o.cumulative_mid)
unfolding find_slot cumulative_at
find_slot-cumulative_at slot [] o e = cc
find_slot-cumulative_at slot (n ∷ os) o e = (refl, rw e refl)

-- The average over a window that begins and ends on recorded samples is there, and it is the mid: where the
-- samples lie on one line that rises by `m` a slot, `m` a `u64` and the window not empty.
pub twap-OnGrid :
    (m x y : ℕ) (os : List Observation) (window_slots start_slot : ℕ) (a b : Observation)
    → All (IsSteady m x y) os
    → find_slot start_slot os ≡ some a
    → find_slot (start_slot + window_slots) os ≡ some b
    → 0 < window_slots
    → m < u64_size
    → twap os window_slots (start_slot + window_slots) ≡ some m
twap-OnGrid m x y os window_slots start_slot a b h at_start at_now wide fits =
    let now_slot : ℕ = start_slot + window_slots in
    let (some_sample, e) = find_slot-cumulative_at start_slot os a at_start in
    averaged m x y os window_slots start_slot some_sample
      (find_slot-cumulative_at now_slot os b at_now).1 e
      (find_slot-Steady m x y now_slot os h at_now)
      (find_slot-Steady m x y start_slot os h at_start) wide fits
