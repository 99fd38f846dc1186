-- ===== src/Orderbook/Engine/Reference/Refinement.antt =====
-- programs/fructus/src/orderbook.rs: the fills of `match_order` are those of the walk along the queue.
use fructus.Base.{
  ℕ, zero, suc, ◌+◌, ◌-◌, ◌≤◌, ◌<◌, ◌≡◌, refl, sym, ap, ◌∙◌, inl, inr, true, false, Option, none,
  some, List, [], ◌∷◌, ◌++◌, arith, leb, ◌==◌, length, remove_at, min_of, All, Bool-cases,
}
use mathlib.Core.List.{append_assoc, append-nil}
use fructus.Orderbook.Defs.{OrderKind, Order, Fill, Book}
use fructus.Orderbook.Engine.{
  eligible, best_crossable_maker, MatchState, Round, stop, go, new_fill, fill_at, fill_round,
  maker_round, match_round, match_loop, match_start, match_end, match_order, makers,
}
use fructus.Orderbook.Engine.Rounds.{measure, measure-fill_at}
use fructus.Orderbook.Engine.Reference.{queue, walk}
use fructus.Orderbook.Engine.Reference.Queue.{Front, Front-get_elem?, queue-Front, queue-nil}
use fructus.Orderbook.Engine.Reference.Choice.{Found, best_crossable_maker-Found}

walk-filled : (taker : Order) (steps : ℕ) (ms : List Order) → walk taker steps 0 ms ≡ []
unfolding walk
walk-filled taker zero ms = refl
walk-filled taker (suc steps) [] = refl
walk-filled taker (suc steps) (m ∷ ms) = refl

walk-nil : (taker : Order) (steps remaining : ℕ) → walk taker steps remaining [] ≡ []
unfolding walk
walk-nil taker zero remaining = refl
walk-nil taker (suc steps) remaining = refl

walk-cons :
    (taker : Order) (steps remaining : ℕ) (m : Order) (ms : List Order)
    → 0 < remaining
    → walk taker (suc steps) remaining (m ∷ ms)
      ≡ new_fill taker remaining m ∷ walk taker steps (remaining - min_of remaining m.size) ms
unfolding walk
walk-cons taker steps remaining m ms k = ground arith

module _ (taker : Order) (kind : OrderKind) (max_steps : ℕ) where
  -- The fills that are still to come in a state of the loop.
  to_come : MatchState → List Fill
  to_come s = walk taker (max_steps - s.steps) s.remaining (queue taker kind s.resting)

  -- A fill leaves the queue without its maker, or the taker filled.
  to_come-fill_at :
      (s : MatchState) (j : ℕ) (m : Order)
      → to_come (fill_at taker s j m)
        ≡ walk taker
            (max_steps - (s.steps + 1))
            (s.remaining - min_of s.remaining m.size)
            (queue taker kind (remove_at s.resting j))
  unfolding to_come fill_at
  to_come-fill_at s j m = elim (Bool-cases (m.size - min_of s.remaining m.size == 0)) [
    | inl h ↦ rw h refl
    | inr h ↦
        rw (h, filled h)
          (walk-filled taker (max_steps - (s.steps + 1)) _
            ∙ sym (walk-filled taker (max_steps - (s.steps + 1)) _))
  ]
    where
      filled :
          m.size - min_of s.remaining m.size == 0 ≡ false
          → s.remaining - min_of s.remaining m.size ≡ 0
      filled h = ground arith

  to_come-Front :
      (s : MatchState) (j : ℕ) (m : Order)
      → eligible taker kind m ≡ true
      → Front taker kind s.resting j m
      → s.steps < max_steps
      → 0 < s.remaining
      → to_come s ≡ new_fill taker s.remaining m ∷ to_come (fill_at taker s j m)
  unfolding to_come
  to_come-Front s j m el front budget more = rw (queue-Front taker kind s.resting j m el front) (
      ap (λ k. walk taker k s.remaining (m ∷ queue taker kind (remove_at s.resting j))) steps_left
      ∙ walk-cons taker (max_steps - (s.steps + 1)) s.remaining m
          (queue taker kind (remove_at s.resting j)) more
      ∙ ap (λ l. new_fill taker s.remaining m ∷ l) (sym (to_come-fill_at s j m)))
    where
      steps_left : max_steps - s.steps ≡ suc (max_steps - (s.steps + 1))
      steps_left = omega arith

  fills-fill_at :
      (s : MatchState) (j : ℕ) (m : Order)
      → (fill_at taker s j m).fills ≡ s.fills ++ new_fill taker s.remaining m ∷ []
  unfolding fill_at
  fills-fill_at s j m = refl

  -- One round, on what is to come: nothing where it stops, else the fill of the round first.
  abbrev Follows : MatchState → Round → Type 0
  Follows s (stop s') = (s'.fills ≡ s.fills) × (to_come s ≡ [])
  Follows s (go s') = (measure s' < measure s) × (s'.fills ++ to_come s' ≡ s.fills ++ to_come s)

  to_come-filled : (s : MatchState) → s.remaining ≡ 0 → to_come s ≡ []
  unfolding to_come
  to_come-filled s h = rw h (walk-filled taker (max_steps - s.steps) (queue taker kind s.resting))

  to_come-unmatched :
      (s : MatchState) → All (λ o. eligible taker kind o ≡ false) s.resting → to_come s ≡ []
  unfolding to_come
  to_come-unmatched s h =
      rw (queue-nil taker kind s.resting h) (walk-nil taker (max_steps - s.steps) s.remaining)

  to_come-exhausted : (s : MatchState) → max_steps ≤ s.steps → to_come s ≡ []
  unfolding to_come walk
  to_come-exhausted s h =
      let none_left : max_steps - s.steps ≡ 0 = omega arith in
      ap (λ k. walk taker k s.remaining (queue taker kind s.resting)) none_left

  fill_at-Follows :
      (s : MatchState) (j : ℕ) (m : Order)
      → eligible taker kind m ≡ true
      → Front taker kind s.resting j m
      → s.steps < max_steps
      → 0 < s.remaining
      → Follows s (go (fill_at taker s j m))
  fill_at-Follows s j m el front budget more = (
    measure-fill_at taker kind max_steps s j m (Front-get_elem? taker kind s.resting j m front)
        more,
    ap (λ l. l ++ to_come (fill_at taker s j m)) (fills-fill_at s j m)
        ∙ append_assoc s.fills (new_fill taker s.remaining m ∷ []) (to_come (fill_at taker s j m))
        ∙ ap (λ l. s.fills ++ l) (sym (to_come-Front s j m el front budget more)),
  )

  maker_round-Follows :
      (s : MatchState) (r : Option ℕ)
      → Found taker kind s.resting r
      → 0 < s.remaining
      → Follows s (maker_round taker max_steps s r)
  unfolding maker_round fill_round
  maker_round-Follows s none all more = (refl, to_come-unmatched s all)
  maker_round-Follows s (some j) (m, el, front) more = elim (Bool-cases (leb max_steps s.steps)) [
    | inl h ↦ rw h (refl, to_come-exhausted s (ground arith))
    | inr h ↦
        rw (h, Front-get_elem? taker kind s.resting j m front)
          (fill_at-Follows s j m el front (ground arith) more)
  ]

  match_round-Follows : (s : MatchState) → Follows s (match_round taker kind max_steps s)
  unfolding match_round
  match_round-Follows s = elim (Bool-cases (s.remaining == 0)) [
    | inl h ↦ rw h (refl, to_come-filled s (ground arith))
    | inr h ↦ rw h (
        maker_round-Follows s (best_crossable_maker s.resting taker kind)
          (best_crossable_maker-Found taker kind s.resting) (ground arith))
  ]

  match_loop-to_come :
      (fuel : ℕ) (s : MatchState)
      → measure s < fuel
      → (match_loop taker kind max_steps fuel s).fills ≡ s.fills ++ to_come s
  unfolding match_loop
  match_loop-to_come zero s small = absurd (omega arith)
  match_loop-to_come (suc fuel) s small =
      after (match_round taker kind max_steps s) refl (match_round-Follows s)
        (match_loop-to_come fuel)
    where
      after :
          (r : Round)
          → match_round taker kind max_steps s ≡ r
          → Follows s r
          → ((s' : MatchState)
              → measure s' < fuel
              → (match_loop taker kind max_steps fuel s').fills ≡ s'.fills ++ to_come s')
          → (match_loop taker kind max_steps (suc fuel) s).fills ≡ s.fills ++ to_come s
      after (stop s') e (same, over) rest =
          rw (e, match_loop) (same ∙ sym (append-nil s.fills) ∙ ap (λ l. s.fills ++ l) (sym over))
      after (go s') e (less, next) rest = rw (e, match_loop) (rest s' (omega (arith, less)) ∙ next)

-- The fills of `match_order` are those of the walk along the price-time queue of the eligible makers.
pub match_order-walk :
    (book : Book) (taker : Order) (kind : OrderKind) (max_steps : ℕ)
    → (match_order book taker kind max_steps).1.fills
      ≡ walk taker max_steps taker.size (queue taker kind (makers book taker.side))
unfolding match_order match_end to_come
match_order-walk book taker kind max_steps =
    let whole : max_steps - 0 ≡ max_steps = omega arith in
    match_loop-to_come taker kind max_steps (length (makers book taker.side) + 2)
      (match_start book taker) (ground arith)
    ∙ ap (λ k. walk taker k taker.size (queue taker kind (makers book taker.side))) whole
