-- ===== src/Orderbook/Engine/Surviving.antt =====
-- programs/fructus/src/orderbook.rs: what the makers of a book have in common survives `match_order`, which
-- only removes makers and shrinks them.
use fructus.Base.{
  ℕ, zero, suc, ◌+◌, ◌-◌, ◌<◌, ◌≡◌, refl, sym, ap, subst, ◌∙◌, inl, inr, false, some, List, arith,
  ◌==◌, length, get_elem?, set, remove_at, min_of, Bool-cases,
}
use fructus.Orderbook.Defs.{OrderKind, Order, Book}
use fructus.Orderbook.Engine.{
  makers, MatchState, Round, stop, go, fill_at, match_round, match_loop, match_start, match_end,
  match_order,
}
use fructus.Orderbook.Engine.Rounds.{Does, match_round-Does, budget_hit-fill_at}
use fructus.Orderbook.Engine.Matching.{makers-with_makers}

-- `Q` holds of a list of makers still when one is removed, and when one shrinks to a size that is not 0.
module _ {κ} (Q : List Order → Type κ)
    (removed : (os : List Order) (i : ℕ) (m : Order)
      → get_elem? os i ≡ some m
      → Q os
      → Q (remove_at os i))
    (shrunk : (os : List Order) (i : ℕ) (m : Order) (k : ℕ)
      → get_elem? os i ≡ some m
      → 0 < k
      → Q os
      → Q (set os i (record m { size = k })))
    (incoming : Order) (kind : OrderKind) (max_steps : ℕ) where
  fill_at-survives :
      (s : MatchState) (j : ℕ) (m : Order)
      → get_elem? s.resting j ≡ some m
      → Q s.resting
      → Q (fill_at incoming s j m).resting
  unfolding fill_at
  fill_at-survives s j m at q = elim (Bool-cases (m.size - min_of s.remaining m.size == 0)) [
    | inl h ↦ rw h (removed s.resting j m at q)
    | inr h ↦ rw h (shrunk s.resting j m (m.size - min_of s.remaining m.size) at (ground arith) q)
  ]

  match_loop-survives :
      (fuel : ℕ) (s : MatchState)
      → s.budget_hit ≡ false
      → Q s.resting
      → Q (match_loop incoming kind max_steps fuel s).resting
  unfolding match_loop
  match_loop-survives zero s running q = q
  match_loop-survives (suc fuel) s running q =
      after (match_round incoming kind max_steps s) refl
        (match_round-Does incoming kind max_steps s running) (match_loop-survives fuel)
    where
      after :
          (r : Round)
          → match_round incoming kind max_steps s ≡ r
          → Does incoming kind max_steps s r
          → ((s' : MatchState)
              → s'.budget_hit ≡ false
              → Q s'.resting
              → Q (match_loop incoming kind max_steps fuel s').resting)
          → Q (match_loop incoming kind max_steps (suc fuel) s).resting
      after (stop s') e (exit, same) rest =
          rw (e, match_loop) (subst Q (ap (λ x. x.resting) (sym same)) q)
      after (go s') e (j, m, at, el, budget, more, made) rest =
          rw (e, match_loop)
            (rest s' (rw made (budget_hit-fill_at incoming kind max_steps s j m ∙ running))
              (rw made (fill_at-survives s j m at q)))

  -- What holds of the makers and survives removal and shrinking holds of those that `match_order` leaves.
  pub match_order-survives :
      (book : Book)
      → Q (makers book incoming.side)
      → Q (makers (match_order book incoming kind max_steps).0 incoming.side)
  unfolding match_order match_end
  match_order-survives book q = rw (makers-with_makers book incoming.side) (
      match_loop-survives (length (makers book incoming.side) + 2) (match_start book incoming) refl
        q)
