-- ===== src/Orderbook/Twap/Line.antt =====
-- programs/fructus/src/orderbook.rs: the samples of a mid that does not move lie on a
-- line, and what is read between them and behind them does, too.
use fructus.Base.{
  ℕ, ◌+◌, ◌-◌, ◌*◌, ◌/◌, ◌≤◌, ◌<◌, ◌≡◌, refl, sym, ap, subst, ◌∙◌, inl, inr, Bool, true, false,
  Option, none, some, List, [], ◌∷◌, arith, ltb, leb, ◌==◌, if◌then◌else◌, select, All, Bool-cases,
  checked_sub, checked_mul, checked_div, checked_add, u128_size,
}
use mathlib.Core.Option.{some-injective}
use native.Mathlib.Nat.{mul-div_cancel}
use fructus.Base.Options.{◌>>=◌, refuse, >>=-eq-some}
use fructus.Base.Checked.{
  checked_sub-eq-some, checked_mul-eq-some, checked_add-eq-some, checked_div-eq-some, refuse-some,
}
use fructus.Orderbook.Defs.{Observation}
use fructus.Orderbook.Twap.{
  find_slot, max_by_slot, min_by_slot, interpolate, is_empty, off_grid, cumulative_at,
}

module _ (P : Observation → Type 0) where
  pub All-select : (p : Observation → Bool) (os : List Observation) → All P os → All P (select p os)
  All-select p [] h = tt
  All-select p (o ∷ os) h = elim (Bool-cases (p o)) [
    | inl e ↦ rw e (h.0, All-select p os h.1)
    | inr e ↦ rw e (All-select p os h.1)
  ]

  -- What the searches find, is one of the observations.
  abbrev pub Found : Option Observation → Type 0
  Found none = Unit
  Found (some o) = P o

  either : (t : Bool) (o n : Observation) → P o → P n → P (if t then o else n)
  either true o n h k = h
  either false o n h k = k

  pub max_by_slot-Found : (os : List Observation) → All P os → Found (max_by_slot os)
  unfolding max_by_slot
  max_by_slot-Found [] h = tt
  max_by_slot-Found (o ∷ os) h = by_rest (max_by_slot os) refl (max_by_slot-Found os h.1)
    where
      by_rest :
          (r : Option Observation) → max_by_slot os ≡ r → Found r → Found (max_by_slot (o ∷ os))
      by_rest none e k = rw (e, max_by_slot) h.0
      by_rest (some n) e k = rw (e, max_by_slot) (either (leb o.slot n.slot) n o k h.0)

  pub min_by_slot-Found : (os : List Observation) → All P os → Found (min_by_slot os)
  unfolding min_by_slot
  min_by_slot-Found [] h = tt
  min_by_slot-Found (o ∷ os) h = by_rest (min_by_slot os) refl (min_by_slot-Found os h.1)
    where
      by_rest :
          (r : Option Observation) → min_by_slot os ≡ r → Found r → Found (min_by_slot (o ∷ os))
      by_rest none e k = rw (e, min_by_slot) h.0
      by_rest (some n) e k = rw (e, min_by_slot) (either (leb o.slot n.slot) o n h.0 k)

module _ (m x y : ℕ) where
  -- On the line of a mid that is `m` throughout.
  abbrev pub Steady : ℕ → ℕ → Type 0
  Steady slot cumulative = cumulative + x ≡ m * slot + y

  abbrev pub IsSteady : Observation → Type 0
  IsSteady o = Steady o.slot o.cumulative_mid

  pub find_slot-Steady :
      (slot : ℕ) (os : List Observation) {o : Observation}
      → All IsSteady os
      → find_slot slot os ≡ some o
      → Steady slot o.cumulative_mid
  unfolding find_slot
  find_slot-Steady slot [] h = λ e. cc
  find_slot-Steady slot (n ∷ os) {o} h = elim (Bool-cases (n.slot == slot)) [
    | inl k ↦ rw (k, find_slot) (λ e. here e k)
    | inr k ↦ rw (k, find_slot) (λ e. find_slot-Steady slot os h.1 e)
  ]
    where
      here : some n ≡ some o → n.slot == slot ≡ true → Steady slot o.cumulative_mid
      here e k =
          let same : n.slot ≡ slot = ground arith in
          subst (λ w. Steady slot w.cumulative_mid) (some-injective n o e)
            (subst (λ w. Steady w n.cumulative_mid) same h.0)

  pub distribute : (a b : ℕ) → m * (a + b) ≡ m * a + m * b
  distribute a b = grind arith

  -- Between two points of the line, and behind them, interpolation stays on it.
  pub linear :
      (lo hi slot cl ch : ℕ)
      → Steady lo cl
      → Steady hi ch
      → lo < hi
      → lo ≤ slot
      → cl ≤ ch
      → Steady slot (cl + (ch - cl) * (slot - lo) / (hi - lo))
  linear lo hi slot cl ch h k apart behind rising =
      let span : ℕ = hi - lo in
      let offset : ℕ = slot - lo in
      let at_hi : m * hi ≡ m * span + m * lo = ap (λ n. m * n) (omega arith) ∙ distribute span lo in
      let at_slot : m * slot ≡ m * offset + m * lo =
        ap (λ n. m * n) (omega arith) ∙ distribute offset lo in
      let rise : ch - cl ≡ m * span = omega (arith, at_hi, h, k) in
      let product : (ch - cl) * offset ≡ m * offset * span =
        ap (λ n. n * offset) rise ∙ swap span offset in
      let quotient : (ch - cl) * offset / span ≡ m * offset =
        ap (λ n. n / span) product ∙ mul-div_cancel (m * offset) (omega arith) in
      omega (arith, quotient, at_slot, h)
    where
      swap : (a b : ℕ) → m * a * b ≡ m * b * a
      swap a b = grind arith

  interpolate-Steady :
      (lo hi : Observation) (slot : ℕ) {c : ℕ}
      → IsSteady lo
      → IsSteady hi
      → interpolate lo hi slot ≡ some c
      → Steady slot c
  unfolding interpolate
  interpolate-Steady lo hi slot h k e =
      let (span, h1, e1) = >>=-eq-some (checked_sub hi.slot lo.slot) _ e in
      let (u, h2, e2) = >>=-eq-some (refuse (span == 0)) _ e1 in
      let (offset, h3, e3) = >>=-eq-some (checked_sub slot lo.slot) _ e2 in
      let (rise, h4, e4) = >>=-eq-some (checked_sub hi.cumulative_mid lo.cumulative_mid) _ e3 in
      let (product, h5, e5) = >>=-eq-some (checked_mul u128_size rise offset) _ e4 in
      let (inc, h6, e6) = >>=-eq-some (checked_div product span) _ e5 in
      on_line span u offset rise product inc h1 h2 h3 h4 h5 h6 e6
    where
      on_line :
          (span : ℕ) (u : Unit {0}) (offset rise product inc : ℕ) {c : ℕ}
          → checked_sub hi.slot lo.slot ≡ some span
          → refuse (span == 0) ≡ some u
          → checked_sub slot lo.slot ≡ some offset
          → checked_sub hi.cumulative_mid lo.cumulative_mid ≡ some rise
          → checked_mul u128_size rise offset ≡ some product
          → checked_div product span ≡ some inc
          → checked_add u128_size lo.cumulative_mid inc ≡ some c
          → Steady slot c
      on_line span u offset rise product inc {c = c} h1 h2 h3 h4 h5 h6 e6 =
          let (p, p1) = checked_sub-eq-some hi.slot lo.slot h1 in
          let (q, q1) = checked_sub-eq-some slot lo.slot h3 in
          let (r, r1) = checked_sub-eq-some hi.cumulative_mid lo.cumulative_mid h4 in
          let wide : 0 < span = refuse-some span h2 in
          let v : product ≡ rise * offset = checked_mul-eq-some u128_size rise offset h5 in
          let w : inc ≡ product / span = checked_div-eq-some product span h6 in
          let z : c ≡ lo.cumulative_mid + inc =
            checked_add-eq-some u128_size lo.cumulative_mid inc e6 in
          let inc_eq : inc
              ≡ (hi.cumulative_mid - lo.cumulative_mid) * (slot - lo.slot) / (hi.slot - lo.slot) =
            cc in
          subst (Steady slot) (sym (z ∙ ap (λ n. lo.cumulative_mid + n) inc_eq)) (
            linear lo.slot hi.slot slot lo.cumulative_mid hi.cumulative_mid h k
              (omega (arith, p, p1, wide)) q r)

  off_grid-Steady :
      (os : List Observation) (slot : ℕ) {c : ℕ}
      → All IsSteady os
      → off_grid os slot ≡ some c
      → Steady slot c
  unfolding off_grid
  off_grid-Steady os slot {c} h e =
      let before : List Observation = select (λ o. ltb o.slot slot) os in
      let (lo, h1, e1) = >>=-eq-some (max_by_slot before) _ e in
      let at_lo : IsSteady lo =
        subst (Found IsSteady) h1
          (max_by_slot-Found IsSteady before (All-select IsSteady (λ o. ltb o.slot slot) os h)) in
      by_next lo at_lo (min_by_slot (select (λ o. ltb slot o.slot) os))
        (min_by_slot-Found IsSteady (select (λ o. ltb slot o.slot) os)
          (All-select IsSteady (λ o. ltb slot o.slot) os h))
        e1
    where
      by_next :
          (lo : Observation)
          → IsSteady lo
          → (r : Option Observation) → Found IsSteady r
          → elim r [
            | some hi ↦ interpolate lo hi slot
            | none ↦ max_by_slot (select (λ o. ltb o.slot lo.slot) os) >>= λ prev.
                interpolate prev lo slot
          ]
            ≡ some c
          → Steady slot c
      by_next lo at_lo (some hi) at_hi e = interpolate-Steady lo hi slot at_lo at_hi e
      by_next lo at_lo none u e =
          let older : List Observation = select (λ o. ltb o.slot lo.slot) os in
          let (prev, h1, e1) = >>=-eq-some (max_by_slot older) _ e in
          let at_prev : IsSteady prev = subst (Found IsSteady) h1 (
            max_by_slot-Found IsSteady older
              (All-select IsSteady (λ o. ltb o.slot lo.slot) os h)) in
          interpolate-Steady prev lo slot at_prev at_lo e1

  pub cumulative_at-Steady :
      (os : List Observation) (slot : ℕ) {c : ℕ}
      → All IsSteady os
      → cumulative_at os slot ≡ some c
      → Steady slot c
  unfolding cumulative_at
  cumulative_at-Steady os slot {c} h e =
      let (u, h1, e1) = >>=-eq-some (refuse (is_empty os)) _ e in
      by_found (find_slot slot os) (λ o e2. find_slot-Steady slot os h e2) e1
    where
      by_found :
          (r : Option Observation)
          → ((o : Observation) → r ≡ some o → Steady slot o.cumulative_mid)
          → elim r [ some o ↦ some o.cumulative_mid | none ↦ off_grid os slot ] ≡ some c
          → Steady slot c
      by_found (some o) at e = subst (Steady slot) (some-injective _ _ e) (at o refl)
      by_found none at e = off_grid-Steady os slot h e
