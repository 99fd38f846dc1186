-- ===== src/Adapter/Observations.antt =====
-- programs/fructus/src/lib.rs: the ring of time-weighted-mid observations.
use fructus.Base.{
  ℕ, ◌%◌, not, Option, none, some, List, [], ◌∷◌, leb, ◌==◌, if◌then◌else◌, select, set,
  saturating_sub, saturating_add, saturating_mul, wrapping_add, u64_size, u128_size, map,
}
use fructus.Constants.{twap_observations}
use fructus.State.{OrderBook, Observation}
use fructus.Orderbook
use fructus.Orderbook.{or_zero}

-- `max_by_key(|o| o.slot)`: the last of the samples with the greatest slot.
unfoldable pub latest : List Observation → Option Observation
latest [] = none
latest (o ∷ os) = elim (latest os) [
  | none ↦ some o
  | some m ↦ some (if leb o.slot m.slot then m else o)
]

unfoldable pub last_observation : OrderBook → Option Observation
unfolding latest
last_observation account = latest (select (λ o. not (o.slot == 0)) account.observations)

unfoldable pub contribution : Option ℕ → Observation → ℕ → ℕ
contribution none prev now_slot = 0
contribution (some m) prev now_slot =
    saturating_mul u128_size prev.mid (saturating_sub now_slot prev.slot)

unfoldable pub next_cumulative : Option Observation → Option ℕ → ℕ → ℕ
unfolding contribution
next_cumulative none mid now_slot = 0
next_cumulative (some prev) mid now_slot =
    saturating_add u128_size prev.cumulative_mid (contribution mid prev now_slot)

unfoldable pub record_observation : OrderBook → Option ℕ → ℕ → OrderBook
unfolding last_observation next_cumulative
record_observation account mid now_slot =
    let sample : Observation = record {
      slot = now_slot;
      mid = or_zero mid;
      cumulative_mid = next_cumulative (last_observation account) mid now_slot;
    } in
    record account {
      observations = set account.observations (account.twap_cursor % twap_observations) sample;
      twap_cursor = wrapping_add u64_size account.twap_cursor 1;
    }

-- The observations as the engine's `twap` takes them, as `liquidate` converts them.
unfoldable pub engine_observations : OrderBook → List Orderbook.Observation
engine_observations account =
    map (λ (o : Observation). record { slot = o.slot; cumulative_mid = o.cumulative_mid })
      account.observations
