-- ===== src/Adapter/Fills.antt =====
-- programs/fructus/src/lib.rs: fills applied to a position and to the margin that its owner's ledger
-- holds in reserve.
pub mod Margin
use fructus.Base.{
  ℕ, ◌+◌, ◌-◌, ◌/◌, ◌%◌, Bool, Option, none, some, List, [], ◌∷◌, ◌==◌, if◌then◌else◌, checked_add,
  checked_sub, checked_div, u64_size,
}
use fructus.Errors.{Result, ok, err, FructusError, ok_or, ◌>>=◌, ◌>>◌}
use fructus.State.{Position, UserCollateral}
use fructus.Orderbook.{Fill}
use fructus.Collateral.{free_collateral}
use fructus.Positions.{margin_required, accumulate_entry, accumulate_closed_entry}
use fructus.Funding.{funding_epoch}
use fructus.Adapter.Books.{or_panic}

-- The loop of `apply_open_fills`: the notional added and the entry sums.
unfoldable pub open_sums : ℕ → ℕ → List Fill → ℕ → ℕ → ℕ → Result (ℕ × ℕ × ℕ)
open_sums n d [] notional_delta n_sum d_sum = ok (notional_delta, n_sum, d_sum)
open_sums n d (f ∷ fs) notional_delta n_sum d_sum = do
  delta ← ok_or (checked_add u64_size notional_delta f.size) FructusError.arithmetic_overflow
  sums ← ok_or (accumulate_entry n_sum d_sum n d f.size) FructusError.arithmetic_overflow
  open_sums n d fs delta sums.0 sums.1

abbrev pub is_closed : Position → Bool
is_closed position = position.notional == 0

-- The position and the ledger with the margin for the new notional in reserve.
unfoldable pub reserve_margin :
    Position → UserCollateral → ℕ → ℕ × ℕ × ℕ → ℕ → ℕ → Result (Position × UserCollateral)
reserve_margin position user_collateral initial_margin_bps sums now_slot funding_epoch_slots = do
  new_notional ←
      ok_or (checked_add u64_size position.notional sums.0) FructusError.arithmetic_overflow
  new_collateral ←
      ok_or (margin_required new_notional initial_margin_bps) FructusError.arithmetic_overflow
  incremental ←
      ok_or (checked_sub new_collateral position.collateral) FructusError.arithmetic_overflow
  new_reserved ←
      ok_or (checked_add u64_size user_collateral.reserved incremental)
        FructusError.arithmetic_overflow
  free ←
      ok_or (free_collateral user_collateral.deposited new_reserved)
        FructusError.insufficient_free_collateral
  ok (
    record position {
      notional = new_notional;
      entry_n_sum = sums.1;
      entry_d_sum = sums.2;
      collateral = new_collateral;
      open_slot = if is_closed position then now_slot else position.open_slot;
      last_funding_epoch =
          if is_closed position
          then funding_epoch now_slot funding_epoch_slots
          else position.last_funding_epoch;
    },
    record user_collateral { reserved = new_reserved },
  )

unfoldable pub apply_open_fills :
    Position → UserCollateral → ℕ → List Fill → ℕ → ℕ → ℕ → ℕ → Result (Position × UserCollateral)
unfolding open_sums reserve_margin
apply_open_fills position user_collateral initial_margin_bps [] n d now_slot funding_epoch_slots =
    ok (position, user_collateral)
apply_open_fills position user_collateral initial_margin_bps (f ∷ fs) n d now_slot
      funding_epoch_slots =
    open_sums n d (f ∷ fs) 0 (if is_closed position then 0 else position.entry_n_sum)
      (if is_closed position then 0 else position.entry_d_sum)
    >>= λ sums.
        reserve_margin position user_collateral initial_margin_bps sums now_slot funding_epoch_slots

-- The loop of `apply_close_fills`.
unfoldable pub close_sum : List Fill → ℕ → Result ℕ
close_sum [] notional_delta = ok notional_delta
close_sum (f ∷ fs) notional_delta = do
  delta ← ok_or (checked_add u64_size notional_delta f.size) FructusError.arithmetic_overflow
  close_sum fs delta

-- The position and the ledger with the margin of the closed notional released.
unfoldable pub release_margin :
    Position → UserCollateral → ℕ → ℕ → Result (Position × UserCollateral)
release_margin position user_collateral initial_margin_bps notional_delta = do
  new_notional ←
      ok_or (checked_sub position.notional notional_delta) FructusError.invalid_close_size
  new_collateral ←
      ok_or (margin_required new_notional initial_margin_bps) FructusError.arithmetic_overflow
  released ← ok_or (checked_sub position.collateral new_collateral) FructusError.arithmetic_overflow
  new_reserved ←
      ok_or (checked_sub user_collateral.reserved released) FructusError.arithmetic_overflow
  new_closed_notional ←
      ok_or (checked_add u64_size position.closed_notional notional_delta)
        FructusError.arithmetic_overflow
  per_unit_n ← or_panic (checked_div position.entry_n_sum position.notional)
  per_unit_d ← or_panic (checked_div position.entry_d_sum position.notional)
  closed_entry ←
      ok_or
        (accumulate_closed_entry position.closed_entry_n_sum position.closed_entry_d_sum
          position.closed_notional (per_unit_n % u64_size) (per_unit_d % u64_size) notional_delta)
        FructusError.arithmetic_overflow
  ok (
    record position {
      notional = new_notional;
      collateral = new_collateral;
      closed_notional = new_closed_notional;
      closed_entry_n_sum = closed_entry.0;
      closed_entry_d_sum = closed_entry.1;
    },
    record user_collateral { reserved = new_reserved },
  )

unfoldable pub apply_close_fills :
    Position → UserCollateral → ℕ → List Fill → Result (Position × UserCollateral)
unfolding close_sum release_margin
apply_close_fills position user_collateral initial_margin_bps [] = ok (position, user_collateral)
apply_close_fills position user_collateral initial_margin_bps (f ∷ fs) =
    close_sum (f ∷ fs) 0 >>= λ notional_delta.
    release_margin position user_collateral initial_margin_bps notional_delta
