-- ===== src/Orderbook/Engine/Quotes.antt =====
-- programs/fructus/src/orderbook.rs: `cancel` takes out its owner's order only, and the mid lies between
-- the bids and the asks.
use fructus.Base.{
  ℕ, suc, ◌+◌, ◌/◌, ◌≤◌, ◌<◌, ◌≡◌, sym, ap, subst, ◌∙◌, inl, inr, true, ◌||◌, none, some, List, [],
  ◌∷◌, arith, ◌==◌, if◌then◌else◌, get_elem?, remove_at, All, Bool-cases, Option-cases, All-map_le,
  All-remove_at, try_from, u64_size,
}
use mathlib.Core.Option.{some-injective}
use fructus.Errors.{ok, err, Error, FructusError}
use fructus.Errors.Steps.{ok-injective, require-eq-ok}
use fructus.Orderbook.Defs.{Side, Order, Book, or_zero, max_price, min_price, mid}
use fructus.Orderbook.Engine.{find_seq, cancel}
use fructus.Orderbook.Engine.Rounds.{resting_size, resting_size-remove_at}
use fructus.Orderbook.Engine.Orderly.{IsResting, Uncrossed, IsOrderly, IsSide-remove_at}
use fructus.Orderbook.Engine.Posting.{max_price-cons, max_price-ge, min_price-Lowest, All-both}

find_seq-at :
    (seq i : ℕ) (os : List Order) {p : ℕ} {o : Order}
    → find_seq seq i os ≡ some (p, o)
    → (k : ℕ) × (p ≡ i + k) × (get_elem? os k ≡ some o) × (o.seq ≡ seq)
unfolding find_seq
find_seq-at seq i [] = λ e. cc
find_seq-at seq i (x ∷ os) {p} {o} = elim (Bool-cases (x.seq == seq)) [
  | inl h ↦
      rw (h, find_seq)
        (λ e.
          let same : (i, x) ≡ (p, o) = some-injective (i, x) (p, o) e in
          (
            0,
            omega (arith, ap (λ y. y.0) same),
            ap (λ y. some y.1) same,
            ap (λ y. y.1.seq) (sym same) ∙ x_seq h,
          ))
  | inr h ↦
      rw (h, find_seq)
        (λ e.
          let (k, h1, h2, h3) = find_seq-at seq (i + 1) os e in (suc k, omega (arith, h1), h2, h3))
]
  where
    x_seq : x.seq == seq ≡ true → x.seq ≡ seq
    x_seq h = ground arith

find_seq-zero :
    (seq : ℕ) (os : List Order) {p : ℕ} {o : Order}
    → find_seq seq 0 os ≡ some (p, o)
    → (get_elem? os p ≡ some o) × (o.seq ≡ seq)
find_seq-zero seq os {p} {o} e =
    let (k, h, at, found) = find_seq-at seq 0 os e in
    (subst (λ x. get_elem? os x ≡ some o) (omega (arith, h)) at, found)

-- What a cancellation leaves: the order taken out is the owner's, with that sequence id, and the sizes
-- that rest are those from before without it.
pub record Cancelled (book : Book) (owner seq : ℕ) (book' : Book) (o : Order) : Type 0 where
  pub owned : o.owner ≡ owner
  pub found : o.seq ≡ seq
  pub sizes :
      resting_size book'.bids + resting_size book'.asks + o.size
      ≡ resting_size book.bids + resting_size book.asks
  pub orderly : IsOrderly book → IsOrderly book'

Cancelled-bid :
    (book : Book) (owner seq p : ℕ) (o : Order)
    → find_seq seq 0 book.bids ≡ some (p, o)
    → o.owner ≡ owner
    → Cancelled book owner seq (record book { bids = remove_at book.bids p }) o
Cancelled-bid book owner seq p o h owned =
    let (at_p, found) = find_seq-zero seq book.bids h in
    record {
      owned = owned;
      found = found;
      sizes = omega (arith, resting_size-remove_at book.bids p at_p);
      orderly = λ v. record {
        bid_side = IsSide-remove_at Side.bid book.next_seq book.bids p o at_p v.bid_side;
        ask_side = v.ask_side;
        uncrossed =
            All-remove_at (λ b. All (λ a. b.price < a.price) book.asks) book.bids p v.uncrossed;
      };
    }

Cancelled-ask :
    (book : Book) (owner seq p : ℕ) (o : Order)
    → find_seq seq 0 book.asks ≡ some (p, o)
    → o.owner ≡ owner
    → Cancelled book owner seq (record book { asks = remove_at book.asks p }) o
Cancelled-ask book owner seq p o h owned =
    let (at_p, found) = find_seq-zero seq book.asks h in
    record {
      owned = owned;
      found = found;
      sizes = omega (arith, resting_size-remove_at book.asks p at_p);
      orderly = λ v. record {
        bid_side = v.bid_side;
        ask_side = IsSide-remove_at Side.ask book.next_seq book.asks p o at_p v.ask_side;
        uncrossed =
            All-map_le (λ b. All (λ a. b.price < a.price) book.asks) book.bids
              (λ b. All-remove_at (λ a. b.price < a.price) book.asks p) v.uncrossed;
      };
    }

owner_eq : (a b : ℕ) → a == b ≡ true → a ≡ b
owner_eq a b h = ground arith

-- A cancellation that goes through takes out an order of that owner with that sequence id: the sizes that
-- rest lose exactly its size, and a well-formed book stays well-formed.
pub cancel-Cancelled :
    (book : Book) (owner seq : ℕ) {r : Book × Order}
    → cancel book owner seq ≡ ok r
    → Cancelled book owner seq r.0 r.1
unfolding cancel
cancel-Cancelled book owner seq {r} = elim (Option-cases (find_seq seq 0 book.bids)) [
  | inr ((p, o), h) ↦
      rw (h, cancel)
        (λ e.
          let (h1, e1) =
            require-eq-ok (o.owner == owner) FructusError.order_owner_mismatch
              (ok (record book { bids = remove_at book.bids p }, o)) e in
          subst (λ x. Cancelled book owner seq x.0 x.1) (ok-injective e1)
            (Cancelled-bid book owner seq p o h (owner_eq o.owner owner h1)))
  | inl h ↦ elim (Option-cases (find_seq seq 0 book.asks)) [
    | inr ((p, o), k) ↦
        rw (h, k, cancel)
          (λ e.
            let (h1, e1) =
              require-eq-ok (o.owner == owner) FructusError.order_owner_mismatch
                (ok (record book { asks = remove_at book.asks p }, o)) e in
            subst (λ x. Cancelled book owner seq x.0 x.1) (ok-injective e1)
              (Cancelled-ask book owner seq p o k (owner_eq o.owner owner h1)))
    | inl k ↦ rw (h, k, cancel) (λ e. absurd (err_lem e))
  ]
]
  where
    err_lem : {er : Error} → err er ≡ ok r → ⊥
    err_lem e = cc

max_price-lt :
    (os : List Order) (p : ℕ) → 0 < p → All (λ o. o.price < p) os → or_zero (max_price os) < p
max_price-lt [] p some_price h = some_price
max_price-lt (o ∷ os) p some_price h =
    ground (arith, max_price-cons o os, max_price-lt os p some_price h.1, h.0)

min_price-gt :
    (os : List Order) (p m : ℕ) → min_price os ≡ some m → All (λ o. p < o.price) os → p < m
min_price-gt [] p m = λ e h. cc
min_price-gt (o ∷ os) p m = elim (Option-cases (min_price os)) [
  | inl k ↦ rw k (λ e h. ground (arith, some-injective _ m e))
  | inr (q, k) ↦ rw k (λ e h. ground (arith, some-injective _ m e, min_price-gt os p q k h.1))
]

All-swap {ℓ κ} :
    {A : Type ℓ} (R : A → A → Type κ) (xs ys : List A)
    → All (λ x. All (R x) ys) xs
    → All (λ y. All (λ x. R x y) xs) ys
All-swap R xs [] h = tt
All-swap R xs (y ∷ ys) h = (
  All-map_le (λ x. All (R x) (y ∷ ys)) xs (λ x k. k.0) h,
  All-swap R xs ys (All-map_le (λ x. All (R x) (y ∷ ys)) xs (λ x k. k.1) h),
)

mid_lem :
    (x y : ℕ) {m : ℕ}
    → (if x == 0 || y == 0 then none else try_from u64_size ((x + y) / 2)) ≡ some m
    → (0 < x) × (0 < y) × (m ≡ (x + y) / 2)
mid_lem x y e = ground arith

best_below :
    (bids asks : List Order)
    → All (λ a. 0 < a.price) asks
    → Uncrossed bids asks
    → All (λ a. or_zero (max_price bids) < a.price) asks
best_below bids asks priced v =
    All-map_le (λ a. (0 < a.price) × All (λ b. b.price < a.price) bids) asks
      (λ a h. max_price-lt bids a.price h.0 h.1)
      (All-both (λ a. 0 < a.price) (λ a. All (λ b. b.price < a.price) bids) asks priced
        (All-swap (λ b a. b.price < a.price) bids asks v))

between :
    (bids asks : List Order) (m : ℕ)
    → All (λ a. 0 < a.price) asks
    → Uncrossed bids asks
    → 0 < or_zero (min_price asks)
    → m ≡ (or_zero (max_price bids) + or_zero (min_price asks)) / 2
    → All (λ b. b.price ≤ m) bids × All (λ a. m ≤ a.price) asks
between bids [] m priced v h e = absurd (omega arith)
between bids (a ∷ asks) m priced v h e =
    let best : ℕ = or_zero (max_price bids) in
    let (q, (k, some_price, all)) = min_price-Lowest a asks priced in
    let below : best < q = min_price-gt (a ∷ asks) best q k (best_below bids (a ∷ asks) priced v) in
    let half : m ≡ (best + q) / 2 = e ∙ ap (λ x. (best + or_zero x) / 2) k in
    (
      All-map_le (λ b. b.price ≤ best) bids (λ b l. omega (arith, l, below, half))
          (max_price-ge bids),
      All-map_le (λ x. q ≤ x.price) (a ∷ asks) (λ x l. omega (arith, l, below, half)) all,
    )

-- On a well-formed book the mid, where there is one, is at least every bid and at most every ask.
pub mid_between :
    (book : Book) {m : ℕ}
    → IsOrderly book
    → mid book ≡ some m
    → All (λ b. b.price ≤ m) book.bids × All (λ a. m ≤ a.price) book.asks
unfolding mid
mid_between book {m} v e =
    let (h, h1, h2) = mid_lem (or_zero (max_price book.bids)) (or_zero (min_price book.asks)) e in
    between book.bids book.asks m
      (All-map_le (IsResting Side.ask book.next_seq) book.asks (λ o r. r.priced) v.ask_side.resting)
      v.uncrossed h1 h2
