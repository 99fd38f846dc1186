-- ===== src/Orderbook/Engine/Rounds.antt =====
-- programs/fructus/src/orderbook.rs: what a round of the loop in `match_order` keeps, and how the loop
-- ends.
use fructus.Base.{
  ℕ, zero, suc, ◌+◌, ◌-◌, ◌≤◌, ◌<◌, ◌≡◌, refl, sym, ◌∙◌, ◌⊎◌, inl, inr, Bool, true, false, ◌&&◌,
  not, Option, none, some, List, [], ◌∷◌, ◌++◌, arith, leb, ◌==◌, if◌then◌else◌, length, get_elem?,
  set, remove_at, min_of, All, Bool-cases, leb→le, length-append, length-set, length-remove_at,
  get_elem?-lt, All-append,
}
use mathlib.Core.Path.{subst}
use fructus.Orderbook.Defs.{OrderKind, Order, Fill, total_size}
use fructus.Orderbook.Engine.{
  crossable, eligible, best_crossable_maker, MatchState, Round, stop, go, new_fill, fill_at,
  fill_round, maker_round, match_round, match_loop,
}
use fructus.Orderbook.Engine.Priority.{First, best_crossable_maker-First}

-- The size that rests in a list of orders.
pub resting_size : List Order → ℕ
resting_size [] = 0
resting_size (o ∷ os) = o.size + resting_size os

total_size-append_one :
    (fs : List Fill) (f : Fill) → total_size (fs ++ f ∷ []) ≡ total_size fs + f.size
unfolding total_size
total_size-append_one [] f = omega arith
total_size-append_one (g ∷ fs) f = omega (arith, total_size-append_one fs f)

pub resting_size-remove_at :
    (os : List Order) (i : ℕ) {m : Order}
    → get_elem? os i ≡ some m
    → resting_size (remove_at os i) + m.size ≡ resting_size os
unfolding resting_size
resting_size-remove_at [] i h = cc
resting_size-remove_at (o ∷ os) zero h = ground arith
resting_size-remove_at (o ∷ os) (suc i) h = omega (arith, resting_size-remove_at os i h)

resting_size-set :
    (os : List Order) (i k : ℕ) {m : Order}
    → get_elem? os i ≡ some m
    → resting_size (set os i (record m { size = k })) + m.size ≡ resting_size os + k
unfolding resting_size
resting_size-set [] i k h = cc
resting_size-set (o ∷ os) zero k h = ground arith
resting_size-set (o ∷ os) (suc i) k h = omega (arith, resting_size-set os i k h)

-- The makers, and one more while the taker is not filled.
abbrev pub measure : MatchState → ℕ
measure s = length s.resting + (if s.remaining == 0 then 0 else 1)

module _ (incoming : Order) (kind : OrderKind) (max_steps : ℕ) where
  pub measure-fill_at :
      (s : MatchState) (j : ℕ) (m : Order)
      → get_elem? s.resting j ≡ some m
      → 0 < s.remaining
      → measure (fill_at incoming s j m) < measure s
  unfolding fill_at
  measure-fill_at s j m at more = ground (
    arith,
    length-remove_at s.resting j (get_elem?-lt s.resting j at),
    length-set s.resting j (record m { size = m.size - min_of s.remaining m.size }),
  )

  -- A fill against a maker of another owner, at a price that the taker's order allows.
  abbrev pub IsProper : Fill → Type 0
  IsProper f =
      ((not (f.maker_owner == incoming.owner)
          && crossable kind incoming.side incoming.price f.price)
        ≡ true)
      × (f.taker_owner ≡ incoming.owner)
      × (f.size ≤ incoming.size)

  -- What holds in every round, for the makers that the loop started with.
  pub record Balanced (resting : List Order) (s : MatchState) : Type 0 where
    pub taken : resting_size s.resting + total_size s.fills ≡ resting_size resting
    pub left : s.remaining + total_size s.fills ≡ incoming.size
    pub counted : length s.fills ≡ s.steps
    pub within : s.steps ≤ max_steps
    pub spent : s.steps + measure s ≤ length resting + 1
    pub proper : All IsProper s.fills

  spent_fill :
      (resting : List Order) (s : MatchState) (idx : ℕ) (m : Order)
      → get_elem? s.resting idx ≡ some m
      → 0 < s.remaining
      → s.steps + measure s ≤ length resting + 1
      → s.steps + 1 + measure (fill_at incoming s idx m) ≤ length resting + 1
  spent_fill resting s idx m at more h = omega (arith, measure-fill_at s idx m at more)

  fill_at-Balanced :
      (resting : List Order) (s : MatchState) (idx : ℕ) (m : Order)
      → get_elem? s.resting idx ≡ some m
      → eligible incoming kind m ≡ true
      → s.steps < max_steps
      → 0 < s.remaining
      → Balanced resting s
      → Balanced resting (fill_at incoming s idx m)
  unfolding fill_at eligible
  fill_at-Balanced resting s idx m at el budget more b = record {
    taken = ground (
      arith,
      resting_size-remove_at s.resting idx at,
      resting_size-set s.resting idx (m.size - min_of s.remaining m.size) at,
      total_size-append_one s.fills (new_fill incoming s.remaining m),
      b.taken,
    );
    left = ground (arith, total_size-append_one s.fills (new_fill incoming s.remaining m), b.left);
    counted = omega (arith, length-append s.fills (new_fill incoming s.remaining m ∷ []));
    within = omega arith;
    spent = spent_fill resting s idx m at more b.spent;
    proper =
        All-append IsProper s.fills (new_fill incoming s.remaining m ∷ []) b.proper
          ((el, refl, ground (arith, b.left)), tt);
  }

  -- How the loop ends: the taker is filled or no maker is eligible, or the budget is used up while the
  -- taker is not filled and a maker is eligible.
  abbrev pub Exit : MatchState → Type 0
  Exit s =
      ((s.budget_hit ≡ false)
        × ((s.remaining ≡ 0) ⊎ All (λ o. eligible incoming kind o ≡ false) s.resting))
      ⊎ ((s.budget_hit ≡ true)
          × (0 < s.remaining)
          × (max_steps ≤ s.steps)
          × ((j : ℕ) × (m : Order) × (get_elem? s.resting j ≡ some m)
              × (eligible incoming kind m ≡ true)))

  -- What one round does to a running state.
  abbrev pub Does : MatchState → Round → Type 0
  Does s (stop s') = Exit s' × (s' ≡ record s { budget_hit = s'.budget_hit })
  Does s (go s') =
      (j : ℕ) × (m : Order) × (get_elem? s.resting j ≡ some m)
      × (eligible incoming kind m ≡ true)
      × (s.steps < max_steps)
      × (0 < s.remaining)
      × (s' ≡ fill_at incoming s j m)

  maker_round-Does :
      (s : MatchState) (o : Option ℕ)
      → s.budget_hit ≡ false
      → 0 < s.remaining
      → First incoming kind s.resting o
      → Does s (maker_round incoming max_steps s o)
  unfolding maker_round fill_round
  maker_round-Does s none running more f = (inl (running, inr f), refl)
  maker_round-Does s (some j) running more (m, at, el, all) =
      elim (Bool-cases (leb max_steps s.steps)) [
        | inl h ↦ rw h (inr (refl, more, leb→le max_steps s.steps h, (j, m, at, el)), refl)
        | inr h ↦ rw (h, at) (j, m, at, el, ground arith, more, refl)
      ]

  pub match_round-Does :
      (s : MatchState) → s.budget_hit ≡ false → Does s (match_round incoming kind max_steps s)
  unfolding match_round
  match_round-Does s running = elim (Bool-cases (s.remaining == 0)) [
    | inl h ↦ rw h (inl (running, inl (ground arith)), refl)
    | inr h ↦ rw h (
        maker_round-Does s (best_crossable_maker s.resting incoming kind) running (ground arith)
          (best_crossable_maker-First incoming kind s.resting))
  ]

  pub budget_hit-fill_at :
      (s : MatchState) (j : ℕ) (m : Order) → (fill_at incoming s j m).budget_hit ≡ s.budget_hit
  unfolding fill_at
  budget_hit-fill_at s j m = refl

  stopped-Balanced :
      (resting : List Order) (s : MatchState) (flag : Bool)
      → Balanced resting s
      → Balanced resting (record s { budget_hit = flag })
  stopped-Balanced resting s flag b = record {
    taken = b.taken;
    left = b.left;
    counted = b.counted;
    within = b.within;
    spent = b.spent;
    proper = b.proper;
  }

  pub match_loop-Exit :
      (resting : List Order) (fuel : ℕ) (s : MatchState)
      → measure s < fuel
      → s.budget_hit ≡ false
      → Balanced resting s
      → Balanced resting (match_loop incoming kind max_steps fuel s)
        × Exit (match_loop incoming kind max_steps fuel s)
  unfolding match_loop
  match_loop-Exit resting zero s small running b = absurd (omega arith)
  match_loop-Exit resting (suc fuel) s small running b =
      after (match_round incoming kind max_steps s) refl (match_round-Does s running)
        (match_loop-Exit resting fuel)
    where
      after :
          (r : Round)
          → match_round incoming kind max_steps s ≡ r
          → Does s r
          → ((s' : MatchState)
              → measure s' < fuel
              → s'.budget_hit ≡ false
              → Balanced resting s'
              → Balanced resting (match_loop incoming kind max_steps fuel s')
                × Exit (match_loop incoming kind max_steps fuel s'))
          → Balanced resting (match_loop incoming kind max_steps (suc fuel) s)
            × Exit (match_loop incoming kind max_steps (suc fuel) s)
      after (stop s') e (exit, same) rest =
          rw (e, match_loop)
            (subst (Balanced resting) (sym same) (stopped-Balanced resting s s'.budget_hit b), exit)
      after (go s') e (j, m, at, el, budget, more, made) rest =
          rw (e, match_loop)
            (rest s' (rw made (omega (arith, measure-fill_at s j m at more)))
              (rw made (budget_hit-fill_at s j m ∙ running))
              (rw made (fill_at-Balanced resting s j m at el budget more b)))
