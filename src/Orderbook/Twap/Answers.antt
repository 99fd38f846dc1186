-- ===== src/Orderbook/Twap/Answers.antt =====
-- programs/fructus/src/orderbook.rs: `cumulative_at` of samples on a line answers at every slot from the first of
-- two samples on.
use fructus.Base.{
  ℕ, ◌+◌, ◌-◌, ◌*◌, ◌/◌, ◌≤◌, ◌<◌, ◌≡◌, ◌≢◌, refl, sym, ap, subst, ◌∙◌, inl, inr, true, Option,
  none, some, List, arith, ltb, select, All, Bool-cases, get_elem?, u128_size,
}
use mathlib.Core.Option.{some-injective}
use fructus.Base.Options.{◌>>=◌}
use fructus.Base.Checked.{checked_sub-le, try_from-fits, nonzero}
use fructus.Orderbook.Defs.{Observation}
use fructus.Orderbook.Twap.{
  find_slot, max_by_slot, min_by_slot, interpolate, off_grid, cumulative_at,
}
use fructus.Orderbook.Twap.Searches.{
  max_by_slot-select, min_by_slot-select, find_slot-none, not_empty, All-passes,
}
use fructus.Orderbook.Twap.Line.{
  All-select, Found, max_by_slot-Found, min_by_slot-Found, Steady, IsSteady, distribute, linear,
}

mul_mono : (m a b : ℕ) → a ≤ b → m * a ≤ m * b
mul_mono m a b h = grind arith

mul-le-mul_left : (a b n : ℕ) → a ≤ b → a * n ≤ b * n
mul-le-mul_left a b n h = grind arith

module _ (m x y latest : ℕ) where
  -- The bounds within which nothing overflows.
  abbrev pub Fits : Type 0
  Fits = (m * latest * latest < u128_size) × (m * latest + y < u128_size)

  abbrev pub Recorded : Observation → Type 0
  Recorded o = IsSteady m x y o × (o.slot ≤ latest)

  mul_mono2 : (a b : ℕ) → a ≤ latest → b ≤ latest → m * a * b ≤ m * latest * latest
  mul_mono2 a b h k =
      let wide : m * a ≤ m * latest = mul_mono m a latest h in
      omega (arith, mul-le-mul_left (m * a) (m * latest) b wide, mul_mono (m * latest) b latest k)

  interpolate-answers :
      (lo hi : Observation) (slot : ℕ)
      → Fits
      → Recorded lo
      → Recorded hi
      → lo.slot < hi.slot
      → lo.slot < slot
      → slot ≤ latest
      → (c : ℕ) × (interpolate lo hi slot ≡ some c)
  unfolding interpolate
  interpolate-answers lo hi slot (fits, fits1) (h, h1) (k, k1) apart behind within =
      let span : ℕ = hi.slot - lo.slot in
      let offset : ℕ = slot - lo.slot in
      let at_hi : m * hi.slot ≡ m * span + m * lo.slot =
        ap (λ n. m * n) (omega arith) ∙ distribute m x y span lo.slot in
      let rising : lo.cumulative_mid ≤ hi.cumulative_mid = omega (arith, at_hi, h, k) in
      let rise : ℕ = hi.cumulative_mid - lo.cumulative_mid in
      let slope : rise ≡ m * span = omega (arith, at_hi, h, k) in
      let small : rise * offset < u128_size =
        subst (λ n. n * offset < u128_size) (sym slope)
          (omega (arith, mul_mono2 span offset (omega arith) (omega arith), fits)) in
      let reached : Steady m x y slot (lo.cumulative_mid + rise * offset / span) =
        linear m x y lo.slot hi.slot slot lo.cumulative_mid hi.cumulative_mid h k apart
          (omega arith) rising in
      let small1 : lo.cumulative_mid + rise * offset / span < u128_size =
        omega (arith, reached, mul_mono m slot latest within, fits1) in
      (
        lo.cumulative_mid + rise * offset / span,
        rw
            (
              checked_sub-le hi.slot lo.slot (omega arith),
              nonzero span (omega arith),
              checked_sub-le slot lo.slot (omega arith),
              checked_sub-le hi.cumulative_mid lo.cumulative_mid rising,
              try_from-fits u128_size (rise * offset) small,
              try_from-fits u128_size (lo.cumulative_mid + rise * offset / span) small1,
            )
            refl,
      )

  module _ (os : List Observation) (i j : ℕ) (a b : Observation) where
    -- Behind the first of two samples `off_grid` answers where no sample is at the slot.
    off_grid-answers :
        (slot : ℕ)
        → Fits
        → All Recorded os
        → get_elem? os i ≡ some a
        → get_elem? os j ≡ some b
        → a.slot < b.slot
        → a.slot < slot
        → b.slot ≢ slot
        → slot ≤ latest
        → (c : ℕ) × (off_grid os slot ≡ some c)
    unfolding off_grid
    off_grid-answers slot fits h at_a at_b apart behind off within =
        let before : List Observation = select (λ o. ltb o.slot slot) os in
        let (lo, e, above) = max_by_slot-select (λ o. ltb o.slot slot) os i a at_a (ground arith) in
        let lo_recorded : Recorded lo =
          subst (Found Recorded) e
            (max_by_slot-Found Recorded before (All-select Recorded (λ o. ltb o.slot slot) os h)) in
        let lo_before : ltb lo.slot slot ≡ true = subst (Found (λ o. ltb o.slot slot ≡ true)) e (
          max_by_slot-Found (λ o. ltb o.slot slot ≡ true) before
            (All-passes (λ o. ltb o.slot slot) os)) in
        rw e (
          by_next lo lo_recorded (ground arith) above
            (min_by_slot (select (λ o. ltb slot o.slot) os)) refl (λ later. last lo e later))
      where
        last :
            (lo : Observation)
            → max_by_slot (select (λ o. ltb o.slot slot) os) ≡ some lo
            → min_by_slot (select (λ o. ltb slot o.slot) os) ≡ none
            → a.slot < lo.slot
        last lo e none_later = elim (Bool-cases (ltb slot b.slot)) [
          | inl t ↦ elim (min_by_slot-select (λ o. ltb slot o.slot) os j b at_b t none_later) [ ]
          | inr t ↦
              let (top, e1, above) =
                max_by_slot-select (λ o. ltb o.slot slot) os j b at_b (ground arith) in
              let same : top ≡ lo = some-injective top lo (sym e1 ∙ e) in
              subst (λ w. a.slot < w.slot) same (omega arith)
        ]

        by_next :
            (lo : Observation)
            → Recorded lo
            → lo.slot < slot
            → a.slot ≤ lo.slot
            → (r : Option Observation) → min_by_slot (select (λ o. ltb slot o.slot) os) ≡ r
            → (min_by_slot (select (λ o. ltb slot o.slot) os) ≡ none → a.slot < lo.slot)
            → (c : ℕ) × (elim r [
              | some hi ↦ interpolate lo hi slot
              | none ↦ max_by_slot (select (λ o. ltb o.slot lo.slot) os) >>= λ prev.
                  interpolate prev lo slot
            ]
                ≡ some c)
        by_next lo v lt above (some hi) e alone =
            let hi_recorded : Recorded hi = subst (Found Recorded) e (
              min_by_slot-Found Recorded (select (λ o. ltb slot o.slot) os)
                (All-select Recorded (λ o. ltb slot o.slot) os h)) in
            let hi_after : ltb slot hi.slot ≡ true = subst (Found (λ o. ltb slot o.slot ≡ true)) e (
              min_by_slot-Found (λ o. ltb slot o.slot ≡ true) (select (λ o. ltb slot o.slot) os)
                (All-passes (λ o. ltb slot o.slot) os)) in
            let after : slot < hi.slot = ground arith in
            interpolate-answers lo hi slot fits v hi_recorded (omega arith) lt within
        by_next lo v lt above none e alone =
            let older : a.slot < lo.slot = alone e in
            let (prev, e1, up) =
              max_by_slot-select (λ o. ltb o.slot lo.slot) os i a at_a (ground arith) in
            let prev_recorded : Recorded prev = subst (Found Recorded) e1 (
              max_by_slot-Found Recorded (select (λ o. ltb o.slot lo.slot) os)
                (All-select Recorded (λ o. ltb o.slot lo.slot) os h)) in
            let prev_before : ltb prev.slot lo.slot ≡ true =
              subst (Found (λ o. ltb o.slot lo.slot ≡ true)) e1 (
                max_by_slot-Found (λ o. ltb o.slot lo.slot ≡ true)
                  (select (λ o. ltb o.slot lo.slot) os)
                  (All-passes (λ o. ltb o.slot lo.slot) os)) in
            let below : prev.slot < lo.slot = ground arith in
            rw e1 (interpolate-answers prev lo slot fits prev_recorded v below (omega arith) within)

    -- From the first of two samples on `cumulative_at` answers.
    pub cumulative_at-answers :
        (slot : ℕ)
        → Fits
        → All Recorded os
        → get_elem? os i ≡ some a
        → get_elem? os j ≡ some b
        → a.slot < b.slot
        → a.slot ≤ slot
        → slot ≤ latest
        → (c : ℕ) × (cumulative_at os slot ≡ some c)
    unfolding cumulative_at
    cumulative_at-answers slot fits h at_a at_b apart behind within =
        rw (not_empty os i a at_a) (by_found (find_slot slot os) refl)
      where
        by_found :
            (r : Option Observation)
            → find_slot slot os ≡ r
            → (c : ℕ) × (elim r [ some o ↦ some o.cumulative_mid | none ↦ off_grid os slot ]
                ≡ some c)
        by_found (some o) e = (o.cumulative_mid, refl)
        by_found none e =
            let off : a.slot ≢ slot = find_slot-none slot os i a at_a e in
            off_grid-answers slot fits h at_a at_b apart (grind arith)
              (find_slot-none slot os j b at_b e) within
