-- ===== src/Adapter/Fills/Margin.antt =====
-- `apply_open_fills` and `apply_close_fills` keep a position at exactly the margin of its notional, and
-- move the ledger's reserve by the difference.
use fructus.Base.{
  ℕ, ◌+◌, ◌-◌, ◌%◌, ◌≤◌, ◌<◌, ◌≡◌, refl, List, [], ◌∷◌, subst, arith, if◌then◌else◌, checked_add,
  checked_div, u64_size,
}
use fructus.Errors.{ok, FructusError, ok_or, ◌>>=◌, >>=-eq-ok}
use fructus.Errors.Steps.{ok-injective, ok_or-eq-ok, ok_or-checked_sub, ok_or-checked_add}
use fructus.Constants.{max_margin_bps}
use fructus.State.{Position, UserCollateral}
use fructus.Orderbook.{Fill, total_size}
use fructus.Positions.{accumulate_entry, accumulate_closed_entry, margin_required}
use fructus.Positions.Margin.{margin_of, margin_required_eq}
use fructus.Collateral.{free_collateral}
use fructus.Adapter.Books.{or_panic}
use fructus.Adapter.Fills.{
  open_sums, reserve_margin, apply_open_fills, close_sum, release_margin, apply_close_fills,
  is_closed,
}

open_sums-delta :
    (n d : ℕ) (fs : List Fill) (acc ns ds : ℕ) {r : ℕ × ℕ × ℕ}
    → open_sums n d fs acc ns ds ≡ ok r
    → r.0 ≡ acc + total_size fs
unfolding open_sums total_size
open_sums-delta n d [] acc ns ds e = ground arith
open_sums-delta n d (f ∷ fs) acc ns ds {r} e =
    let (delta, e1, e2) =
      >>=-eq-ok (ok_or (checked_add u64_size acc f.size) FructusError.arithmetic_overflow)
        (λ delta.
          ok_or (accumulate_entry ns ds n d f.size) FructusError.arithmetic_overflow >>= λ sums.
          open_sums n d fs delta sums.0 sums.1)
        e in
    let (sums, e3, e4) =
      >>=-eq-ok (ok_or (accumulate_entry ns ds n d f.size) FructusError.arithmetic_overflow)
        (λ sums. open_sums n d fs delta sums.0 sums.1) e2 in
    ground (arith, open_sums-delta n d fs delta sums.0 sums.1 e4)

-- The ledger's reserve has moved with the position's collateral, which is the margin of its notional,
-- and the deposit covers it.
pub record Reserved (bps : ℕ) (p : Position) (u : UserCollateral) (p' : Position)
    (u' : UserCollateral) : Type 0 where
  pub backed : p'.collateral ≡ margin_of p'.notional bps
  pub moved : u'.reserved + p.collateral ≡ u.reserved + p'.collateral
  pub same_deposit : u'.deposited ≡ u.deposited

pub reserve_margin-Reserved :
    (p : Position) (u : UserCollateral) (bps : ℕ) (sums : ℕ × ℕ × ℕ) (slot epoch_slots : ℕ)
    {r : Position × UserCollateral}
    → bps ≤ max_margin_bps
    → reserve_margin p u bps sums slot epoch_slots ≡ ok r
    → Reserved bps p u r.0 r.1
      × (r.1.reserved ≤ u.deposited)
      × (r.0.notional ≡ p.notional + sums.0)
      × (p.notional + sums.0 < u64_size)
unfolding reserve_margin free_collateral
reserve_margin-Reserved p u bps sums slot es h e =
    ground (arith, margin_required_eq (p.notional + sums.0) bps)

close_sum-delta :
    (fs : List Fill) (acc : ℕ) {r : ℕ} → close_sum fs acc ≡ ok r → r ≡ acc + total_size fs
unfolding close_sum total_size
close_sum-delta [] acc e = ground arith
close_sum-delta (f ∷ fs) acc e =
    let (h, e1) =
      ok_or-checked_add u64_size acc f.size FructusError.arithmetic_overflow
        (λ delta. close_sum fs delta) e in
    ground (arith, close_sum-delta fs (acc + f.size) e1)

pub release_margin-Reserved :
    (p : Position) (u : UserCollateral) (bps delta : ℕ) {r : Position × UserCollateral}
    → p.notional < u64_size
    → bps ≤ max_margin_bps
    → release_margin p u bps delta ≡ ok r
    → Reserved bps p u r.0 r.1
      × (r.0.notional + delta ≡ p.notional)
      × (r.0.closed_notional ≡ p.closed_notional + delta)
      × (r.1.reserved ≤ u.reserved)
unfolding release_margin
release_margin-Reserved p u bps delta small h e =
    let overflow : FructusError = FructusError.arithmetic_overflow in
    let (h1, e1) = ok_or-checked_sub p.notional delta FructusError.invalid_close_size _ e in
    let (c, h2, e2) = ok_or-eq-ok (margin_required (p.notional - delta) bps) overflow _ e1 in
    let (h3, e3) = ok_or-checked_sub p.collateral c overflow _ e2 in
    let (h4, e4) = ok_or-checked_sub u.reserved (p.collateral - c) overflow _ e3 in
    let (h5, e5) = ok_or-checked_add u64_size p.closed_notional delta overflow _ e4 in
    let (qn, h6, e6) = >>=-eq-ok (or_panic (checked_div p.entry_n_sum p.notional)) _ e5 in
    let (qd, h7, e7) = >>=-eq-ok (or_panic (checked_div p.entry_d_sum p.notional)) _ e6 in
    let (closed, h8, e8) =
      ok_or-eq-ok
        (accumulate_closed_entry p.closed_entry_n_sum p.closed_entry_d_sum p.closed_notional
          (qn % u64_size) (qd % u64_size) delta)
        overflow _ e7 in
    subst
      (λ x.
        Reserved bps p u x.0 x.1
        × (x.0.notional + delta ≡ p.notional)
        × (x.0.closed_notional ≡ p.closed_notional + delta)
        × (x.1.reserved ≤ u.reserved))
      (ok-injective e8)
      (
        record {
          backed = ground (arith, margin_required_eq (p.notional - delta) bps (omega arith) h);
          moved = omega arith;
          same_deposit = refl;
        },
        omega arith,
        refl,
        omega arith,
      )

-- The margin of an open position is in the ledger: the position holds exactly the margin of its
-- notional, and the deposit covers what the ledger has in reserve.
pub record Covered (bps : ℕ) (p : Position) (u : UserCollateral) : Type 0 where
  pub notional_u64 : p.notional < u64_size
  pub at_margin : p.collateral ≡ margin_of p.notional bps
  pub within_deposit : u.reserved ≤ u.deposited

-- `apply_open_fills` adds the size of the fills to the notional, keeps the position at exactly the
-- margin of its notional and the ledger covered, and moves the reserve by what the position's margin
-- changes by; the deposit stays.
pub apply_open_fills-Covered :
    (p : Position) (u : UserCollateral) (bps : ℕ) (fs : List Fill) (n d slot es : ℕ)
    {r : Position × UserCollateral}
    → bps ≤ max_margin_bps
    → Covered bps p u
    → apply_open_fills p u bps fs n d slot es ≡ ok r
    → Covered bps r.0 r.1 × Reserved bps p u r.0 r.1 × (r.0.notional ≡ p.notional + total_size fs)
unfolding apply_open_fills total_size
apply_open_fills-Covered p u bps [] n d slot es h c e =
    subst (λ x. Covered bps x.0 x.1 × Reserved bps p u x.0 x.1 × (x.0.notional ≡ p.notional + 0))
      (ok-injective e)
      (c, record { backed = c.at_margin; moved = refl; same_deposit = refl }, omega arith)
apply_open_fills-Covered p u bps (f ∷ fs) n d slot es h c e =
    let (sums, h1, e1) =
      >>=-eq-ok
        (open_sums n d (f ∷ fs) 0 (if is_closed p then 0 else p.entry_n_sum)
          (if is_closed p then 0 else p.entry_d_sum))
        _ e in
    let delta : sums.0 ≡ 0 + total_size (f ∷ fs) = open_sums-delta n d (f ∷ fs) 0 _ _ h1 in
    let (k, k1, k2, k3) = reserve_margin-Reserved p u bps sums slot es h e1 in
    (
      record {
        notional_u64 = omega (arith, k2, k3);
        at_margin = k.backed;
        within_deposit = omega (arith, k1, k.same_deposit);
      },
      k,
      omega (arith, k2, delta),
    )

-- `apply_close_fills` takes the size of the fills off the notional and adds it to the closed notional,
-- keeps the position at exactly the margin of its notional and the ledger covered, and releases from the
-- reserve what the position's margin falls by; the deposit stays.
pub apply_close_fills-Covered :
    (p : Position) (u : UserCollateral) (bps : ℕ) (fs : List Fill) {r : Position × UserCollateral}
    → bps ≤ max_margin_bps
    → Covered bps p u
    → apply_close_fills p u bps fs ≡ ok r
    → Covered bps r.0 r.1
      × Reserved bps p u r.0 r.1
      × (r.0.notional + total_size fs ≡ p.notional)
      × (r.0.closed_notional ≡ p.closed_notional + total_size fs)
unfolding apply_close_fills total_size
apply_close_fills-Covered p u bps [] h c e =
    subst
      (λ x.
        Covered bps x.0 x.1
        × Reserved bps p u x.0 x.1
        × (x.0.notional + total_size [] ≡ p.notional)
        × (x.0.closed_notional ≡ p.closed_notional + total_size []))
      (ok-injective e)
      (
        c,
        record { backed = c.at_margin; moved = refl; same_deposit = refl },
        ground arith,
        ground arith,
      )
apply_close_fills-Covered p u bps (f ∷ fs) h c e =
    let (delta, h1, e1) = >>=-eq-ok (close_sum (f ∷ fs) 0) _ e in
    let (k, k1, k2, k3) = release_margin-Reserved p u bps delta c.notional_u64 h e1 in
    let size : delta ≡ 0 + total_size (f ∷ fs) = close_sum-delta (f ∷ fs) 0 h1 in
    (
      record {
        notional_u64 = omega (arith, k1, c.notional_u64);
        at_margin = k.backed;
        within_deposit = omega (arith, k3, k.same_deposit, c.within_deposit);
      },
      k,
      omega (arith, size, k1),
      omega (arith, size, k2),
    )
