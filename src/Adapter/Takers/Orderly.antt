-- ===== src/Adapter/Takers/Orderly.antt =====
-- The paths of a taker keep the book well-formed.
use fructus.Base.{
  ℕ, ◌+◌, ◌-◌, ◌<◌, ◌≡◌, refl, subst, inl, inr, Bool, true, false, ◌&&◌, Option, none, some, List,
  arith, ltb, leb, ◌==◌, if◌then◌else◌, length, All-map_le, Bool-cases, u64_size,
}
use fructus.Errors.{Result, ok, err, Error, FructusError, >>=-eq-ok}
use fructus.Errors.Steps.{ok-injective, ok_or-checked_add}
use fructus.Constants.{max_match_steps, max_orders_per_side}
use fructus.State.{OrderBook}
use fructus.Orderbook.{Side, OrderKind, Order, Fill, MatchOutcome, Book, would_cross, total_size}
use fructus.Orderbook.Engine.{match_order, post_limit, own_side, opposite}
use fructus.Orderbook.Engine.Matching.{match_order_conserves}
use fructus.Orderbook.Engine.Orderly.{IsResting, IsSide, IsOrderly, match_order-IsOrderly}
use fructus.Orderbook.Engine.Posting.{post_limit-IsOrderly}
use fructus.Adapter.Books.{take_next_seq}
use fructus.Adapter.Events.{append_event, emit_fill_events}
use fructus.Adapter.Takers.{
  remainder_of, rest_remainder, residual_event, with_book, deferred, settle_remainder, after_fills,
  match_limit_taker, is_none_order, finish_open, match_open_taker,
}

IsResting-later : (side : Side) (n : ℕ) (o : Order) → IsResting side n o → IsResting side (n + 1) o
IsResting-later side n o r = record {
  sided = r.sided;
  priced = r.priced;
  sized = r.sized;
  older = omega (arith, r.older);
}

-- The counter moves past the id it gives, and the book stays well-formed.
pub take_next_seq-IsOrderly :
    (book : Book) {r : Book × ℕ}
    → IsOrderly book
    → take_next_seq book ≡ ok r
    → IsOrderly r.0 × (r.1 < r.0.next_seq)
unfolding take_next_seq
take_next_seq-IsOrderly book v e =
    let (h, e1) = ok_or-checked_add u64_size book.next_seq 1 FructusError.arithmetic_overflow _ e in
    subst (λ x. IsOrderly x.0 × (x.1 < x.0.next_seq)) (ok-injective e1)
      (
        record {
          bid_side = later Side.bid book.bids v.bid_side;
          ask_side = later Side.ask book.asks v.ask_side;
          uncrossed = v.uncrossed;
        },
        omega arith,
      )
  where
    later :
        (side : Side) (os : List Order)
        → IsSide side book.next_seq os
        → IsSide side (book.next_seq + 1) os
    later side os s = record {
      resting =
          All-map_le (IsResting side book.next_seq) os (IsResting-later side book.next_seq)
            s.resting;
      bounded = s.bounded;
    }

pub rest_remainder-IsOrderly :
    (book : Book) (remainder : Order) (filled : ℕ) {book' : Book}
    → 0 < remainder.size
    → remainder.seq < book.next_seq
    → IsOrderly book
    → rest_remainder book remainder filled ≡ ok book'
    → IsOrderly book'
unfolding rest_remainder
rest_remainder-IsOrderly book remainder filled {book'} sized older v =
    elim (Bool-cases (would_cross book remainder)) [
      | inl h ↦ elim (Bool-cases (filled == 0)) [
        | inl k ↦ rw (h, k, rest_remainder) (λ e. absurd (failed e))
        | inr k ↦ rw (h, k, rest_remainder) kept
      ]
      | inr h ↦
          elim (Bool-cases (leb max_orders_per_side (length (own_side book remainder.side)))) [
            | inl k ↦ rw (h, k, rest_remainder) kept
            | inr k ↦ rw (h, k, rest_remainder) (post_limit-IsOrderly book remainder sized older v)
          ]
    ]
  where
    kept : ok book ≡ ok book' → IsOrderly book'
    kept e = subst IsOrderly (ok-injective e) v

    failed : {er : Error} → err er ≡ ok book' → ⊥
    failed e = cc

with_book-IsOrderly :
    (account : OrderBook) (book : Book) (r : Result Book)
    → IsOrderly book
    → ((b : Book) → r ≡ ok b → IsOrderly b)
    → IsOrderly (with_book account book r).2
with_book-IsOrderly account book (ok b) v h = h b refl
with_book-IsOrderly account book (err e) v h = v

deferred-IsOrderly :
    (book : Book) (r : Bool × OrderBook) → IsOrderly book → IsOrderly (deferred book r).2
deferred-IsOrderly book (true, account) v = v
deferred-IsOrderly book (false, account) v = v

settle_remainder-IsOrderly :
    (account : OrderBook) (book : Book) (incoming : Order) (outcome : MatchOutcome)
    → incoming.seq < book.next_seq
    → IsOrderly book
    → IsOrderly (settle_remainder account book incoming outcome).2
unfolding settle_remainder remainder_of
settle_remainder-IsOrderly account book incoming outcome older v = by_residual outcome.residual refl
  where
    remainder : Order
    remainder = remainder_of incoming outcome.fills

    rested :
        (b : Book)
        → 0 < remainder.size
        → rest_remainder book remainder (total_size outcome.fills) ≡ ok b
        → IsOrderly b
    rested b some_size e =
        rest_remainder-IsOrderly book remainder (total_size outcome.fills) some_size older v e

    by_residual :
        (o : Option Order)
        → outcome.residual ≡ o
        → IsOrderly (settle_remainder account book incoming outcome).2
    by_residual (some residual) h =
        rw (h, settle_remainder)
          (deferred-IsOrderly book (append_event account (residual_event residual)) v)
    by_residual none h = elim (Bool-cases (ltb 0 remainder.size)) [
      | inl k ↦
          rw (h, k, settle_remainder)
            (with_book-IsOrderly account book
              (rest_remainder book remainder (total_size outcome.fills)) v
              (λ b. rested b (ground (arith, k))))
      | inr k ↦ rw (h, k, settle_remainder) v
    ]

after_fills-IsOrderly :
    (book : Book) (incoming : Order) (outcome : MatchOutcome) (r : Result (Unit {0}) × OrderBook)
    → incoming.seq < book.next_seq
    → IsOrderly book
    → IsOrderly (after_fills book incoming outcome r).2
unfolding after_fills settle_remainder
after_fills-IsOrderly book incoming outcome (ok x, account) older v =
    settle_remainder-IsOrderly account book incoming outcome older v
after_fills-IsOrderly book incoming outcome (err e, account) older v = v

match_order-older :
    (book : Book) (incoming : Order) (kind : OrderKind) (max_steps : ℕ)
    → incoming.seq < book.next_seq
    → incoming.seq < (match_order book incoming kind max_steps).0.next_seq
match_order-older book incoming kind max_steps h =
    let (taken, small, own, seq) = match_order_conserves book incoming kind max_steps in
    omega (arith, seq, h)

-- A limit taker leaves a well-formed book, whether its path succeeds or fails.
pub match_limit_taker-IsOrderly :
    (account : OrderBook) (book : Book) (incoming : Order) (n d : ℕ)
    → incoming.seq < book.next_seq
    → IsOrderly book
    → IsOrderly (match_limit_taker account book incoming n d).2
unfolding match_limit_taker
match_limit_taker-IsOrderly account book incoming n d older v =
    let matched : Book × MatchOutcome = match_order book incoming OrderKind.limit max_match_steps in
    after_fills-IsOrderly matched.0 incoming matched.1
      (emit_fill_events account matched.1.fills (opposite incoming.side) n d)
      (match_order-older book incoming OrderKind.limit max_match_steps older)
      (match_order-IsOrderly book incoming OrderKind.limit max_match_steps v)

finish_open-IsOrderly :
    (account : OrderBook) (book : Book) (incoming : Order) (outcome : MatchOutcome) (n d : ℕ)
    {r : OrderBook × Book × List Fill}
    → incoming.seq < book.next_seq
    → IsOrderly book
    → finish_open account book incoming outcome n d ≡ ok r
    → IsOrderly r.1 × (r.2 ≡ outcome.fills)
unfolding finish_open remainder_of
finish_open-IsOrderly account book incoming outcome n d {r} older v e =
    let emitted : Result (Unit {0}) × OrderBook =
      emit_fill_events account outcome.fills (opposite incoming.side) n d in
    let rests : Bool =
      ltb 0 incoming.price && ltb 0 remainder.size && is_none_order outcome.residual in
    let (x, h, e1) = >>=-eq-ok emitted.0 _ e in
    let (book', h1, e2) = >>=-eq-ok (if rests then rested else ok book) _ e1 in
    subst (λ x. IsOrderly x.1 × (x.2 ≡ outcome.fills)) (ok-injective e2)
      (
        by_rests (ltb 0 incoming.price) (is_none_order outcome.residual) (ltb 0 remainder.size) refl
            h1,
        refl,
      )
  where
    remainder : Order
    remainder = remainder_of incoming outcome.fills

    rested : Result Book
    rested = rest_remainder book remainder (total_size outcome.fills)

    by_rests :
        (p q t : Bool) {book' : Book}
        → ltb 0 remainder.size ≡ t
        → (if p && t && q then rested else ok book) ≡ ok book'
        → IsOrderly book'
    by_rests false q t h e = subst IsOrderly (ok-injective e) v
    by_rests true q false h e = subst IsOrderly (ok-injective e) v
    by_rests true false true h e = subst IsOrderly (ok-injective e) v
    by_rests true true true h e =
        rest_remainder-IsOrderly book remainder (total_size outcome.fills) (ground (arith, h)) older
          v e

-- A taker that opens leaves a well-formed book, whichever of its three paths it takes.
pub match_open_taker-IsOrderly :
    (account : OrderBook) (book : Book) (incoming : Order) (n d : ℕ)
    {r : OrderBook × Book × List Fill}
    → 0 < incoming.size
    → incoming.seq < book.next_seq
    → IsOrderly book
    → match_open_taker account book incoming n d ≡ ok r
    → IsOrderly r.1
unfolding match_open_taker
match_open_taker-IsOrderly account book incoming n d {r} sized older v =
    elim (Bool-cases (incoming.price == 0)) [
      | inl h ↦ rw (h, match_open_taker) (finished OrderKind.market (u64_size - 1))
      | inr h ↦ elim (Bool-cases (would_cross book incoming)) [
        | inl k ↦ rw (h, k, match_open_taker) (finished OrderKind.limit max_match_steps)
        | inr k ↦
            rw (h, k, match_open_taker)
              (λ e.
                let (book', k1, e1) = >>=-eq-ok (post_limit book incoming) _ e in
                subst (λ x. IsOrderly x.1) (ok-injective e1)
                  (post_limit-IsOrderly book incoming sized older v k1))
      ]
    ]
  where
    finished :
        (kind : OrderKind) (max_steps : ℕ)
        → finish_open account
            (match_order book incoming kind max_steps).0
            incoming
            (match_order book incoming kind max_steps).1
            n
            d
          ≡ ok r
        → IsOrderly r.1
    finished kind max_steps e =
        (finish_open-IsOrderly account (match_order book incoming kind max_steps).0 incoming
          (match_order book incoming kind max_steps).1 n d
          (match_order-older book incoming kind max_steps older)
          (match_order-IsOrderly book incoming kind max_steps v) e).0
