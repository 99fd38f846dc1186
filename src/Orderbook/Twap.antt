-- ===== src/Orderbook/Twap.antt =====
-- programs/fructus/src/orderbook.rs: the time-weighted average of the mid, from its accumulator.
mod Line
mod Searches
mod Answers
pub mod Steady
use fructus.Base.{
  ℕ, ◌/◌, Bool, true, false, ◌||◌, Option, none, some, List, [], ◌∷◌, ltb, leb, ◌==◌, if◌then◌else◌,
  select, checked_add, checked_sub, checked_mul, checked_div, try_from, u64_size, u128_size,
}
use fructus.Base.Options.{◌>>=◌, ◌>>◌, refuse}
use fructus.Orderbook.Defs.{Observation}

-- `find(|o| o.slot == slot)`
unfoldable pub find_slot : ℕ → List Observation → Option Observation
find_slot slot [] = none
find_slot slot (o ∷ os) = if o.slot == slot then some o else find_slot slot os

-- `max_by_key(|o| o.slot)`, the last of equals, and `min_by_key`, the first.
unfoldable pub max_by_slot : List Observation → Option Observation
max_by_slot [] = none
max_by_slot (o ∷ os) = elim (max_by_slot os) [
  | none ↦ some o
  | some m ↦ some (if leb o.slot m.slot then m else o)
]

unfoldable pub min_by_slot : List Observation → Option Observation
min_by_slot [] = none
min_by_slot (o ∷ os) = elim (min_by_slot os) [
  | none ↦ some o
  | some m ↦ some (if leb o.slot m.slot then o else m)
]

unfoldable pub interpolate : Observation → Observation → ℕ → Option ℕ
interpolate lo hi slot = do
  span ← checked_sub hi.slot lo.slot
  refuse (span == 0)
  offset ← checked_sub slot lo.slot
  rise ← checked_sub hi.cumulative_mid lo.cumulative_mid
  product ← checked_mul u128_size rise offset
  inc ← checked_div product span
  checked_add u128_size lo.cumulative_mid inc

abbrev is_empty : List Observation → Bool
is_empty [] = true
is_empty (o ∷ os) = false

-- Off the grid: between the neighbours, or along the last segment.
unfoldable pub off_grid : List Observation → ℕ → Option ℕ
unfolding max_by_slot min_by_slot interpolate
off_grid obs slot = max_by_slot (select (λ o. ltb o.slot slot) obs) >>= λ lo.
    elim (min_by_slot (select (λ o. ltb slot o.slot) obs)) [
      | some hi ↦ interpolate lo hi slot
      | none ↦
          max_by_slot (select (λ o. ltb o.slot lo.slot) obs) >>= λ prev. interpolate prev lo slot
    ]

unfoldable pub cumulative_at : List Observation → ℕ → Option ℕ
unfolding find_slot off_grid
cumulative_at obs slot =
    refuse (is_empty obs)
    >> (elim (find_slot slot obs) [ some o ↦ some o.cumulative_mid | none ↦ off_grid obs slot ])

unfoldable pub twap : List Observation → ℕ → ℕ → Option ℕ
unfolding cumulative_at
twap obs window_slots now_slot = do
  refuse (window_slots == 0 || is_empty obs)
  start_slot ← checked_sub now_slot window_slots
  cum_now ← cumulative_at obs now_slot
  cum_start ← cumulative_at obs start_slot
  rise ← checked_sub cum_now cum_start
  try_from u64_size (rise / window_slots)
