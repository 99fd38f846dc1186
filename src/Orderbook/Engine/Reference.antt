-- ===== src/Orderbook/Engine/Reference.antt =====
-- What matching means, told without a loop over the book: the makers that the taker may trade with, in
-- price-time order, are taken one by one until the taker is filled or its budget is used up.
pub mod Queue
pub mod Choice
pub mod Refinement
use fructus.Base.{
  ℕ, zero, suc, ◌-◌, Bool, ◌&&◌, ◌||◌, List, [], ◌∷◌, ltb, ◌==◌, if◌then◌else◌, select, min_of,
}
use fructus.Orderbook.Defs.{Side, OrderKind, Order, Fill}
use fructus.Orderbook.Engine.{eligible, new_fill}

-- A strictly better maker for a taker of the side: a better price, or the same and an older one.
abbrev pub ahead_of : Side → Order → Order → Bool
ahead_of Side.bid m o = ltb m.price o.price || (m.price == o.price && ltb m.seq o.seq)
ahead_of Side.ask m o = ltb o.price m.price || (m.price == o.price && ltb m.seq o.seq)

-- An order put in front of the first that is not ahead of it.
pub insert_by : Side → Order → List Order → List Order
insert_by side o [] = o ∷ []
insert_by side o (p ∷ ps) = if ahead_of side p o then p ∷ insert_by side o ps else o ∷ p ∷ ps

pub queue_of : Side → List Order → List Order
unfolding insert_by
queue_of side [] = []
queue_of side (o ∷ os) = insert_by side o (queue_of side os)

-- The makers that a taker may trade with, in the order in which it does.
pub queue : Order → OrderKind → List Order → List Order
unfolding queue_of
queue taker kind makers = queue_of taker.side (select (eligible taker kind) makers)

-- A taker with the size `remaining` and a budget of `steps` fills against a queue.
pub walk : Order → ℕ → ℕ → List Order → List Fill
walk taker zero remaining ms = []
walk taker (suc steps) remaining [] = []
walk taker (suc steps) remaining (m ∷ ms) =
    let rest = walk taker steps (remaining - min_of remaining m.size) ms in
    if remaining == 0 then [] else new_fill taker remaining m ∷ rest
