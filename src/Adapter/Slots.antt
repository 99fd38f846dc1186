-- ===== src/Adapter/Slots.antt =====
-- programs/fructus/src/lib.rs: until `save_book` writes the book back, the orders in the account are what
-- they were: events are appended around them.
pub mod Draining
use fructus.Base.{
  ℕ, ◌-◌, ◌≡◌, refl, ap, subst, ◌∙◌, inl, inr, Bool, true, false, ◌&&◌, Option, none, some, List,
  [], ◌∷◌, ltb, leb, ◌==◌, if◌then◌else◌, length, length-set, Bool-cases, u64_size,
}
use fructus.Errors.{Result, ok, err, FructusError, >>=-eq-ok}
use fructus.Errors.Steps.{ok-injective}
use fructus.Constants.{event_queue_len, max_match_steps}
use fructus.State.{OrderBook, OutEvent}
use fructus.Orderbook.{Side, OrderKind, Order, Fill, MatchOutcome, Book, would_cross, total_size}
use fructus.Orderbook.Engine.{match_order, post_limit, opposite}
use fructus.Adapter.Books.{load_book}
use fructus.Adapter.Events.{
  ring_index, queued, push_event, append_event, fill_event, emit_fill_events,
}
use fructus.Adapter.Events.Writes.{Written, Written-refl, Written-trans, appended}
use fructus.Adapter.Takers.{
  remainder_of, rest_remainder, residual_event, with_book, deferred, settle_remainder, after_fills,
  match_limit_taker, is_none_order, finish_open, match_open_taker,
}

-- The slots of both sides and the counter are the same, and the ring has as many slots.
pub record SameSlots (a a' : OrderBook) : Type 0 where
  pub same_bids : a'.bids ≡ a.bids
  pub same_asks : a'.asks ≡ a.asks
  pub same_next_seq : a'.next_seq ≡ a.next_seq
  pub same_ring : length a'.events ≡ length a.events
  pub written : Written a a'

pub SameSlots-refl : (a : OrderBook) → SameSlots a a
SameSlots-refl a = record {
  same_bids = refl;
  same_asks = refl;
  same_next_seq = refl;
  same_ring = refl;
  written = Written-refl a;
}

pub SameSlots-trans : (a b c : OrderBook) → SameSlots a b → SameSlots b c → SameSlots a c
SameSlots-trans a b c h k = record {
  same_bids = k.same_bids ∙ h.same_bids;
  same_asks = k.same_asks ∙ h.same_asks;
  same_next_seq = k.same_next_seq ∙ h.same_next_seq;
  same_ring = k.same_ring ∙ h.same_ring;
  written = Written-trans a b c h.written k.written;
}

pub SameSlots-load_book : (a a' : OrderBook) → SameSlots a a' → load_book a' ≡ load_book a
unfolding load_book
SameSlots-load_book a a' h = rw (h.same_bids, h.same_asks, h.same_next_seq) refl

pub append_event-SameSlots :
    (a : OrderBook) (event : OutEvent) → SameSlots a (append_event a event).1
unfolding append_event push_event
append_event-SameSlots a event = elim (Bool-cases (leb event_queue_len (queued a))) [
  | inl h ↦ rw h (SameSlots-refl a)
  | inr h ↦ rw h (record {
    same_bids = refl;
    same_asks = refl;
    same_next_seq = refl;
    same_ring =
        length-set a.events (ring_index a.event_write_cursor)
          (record event { seq = a.event_write_cursor; settled = 0 });
    written = (1, appended 1 a (push_event a event) event refl refl refl);
  })
]

pub emit_fill_events-SameSlots :
    (a : OrderBook) (fs : List Fill) (side : Side) (n d : ℕ)
    → SameSlots a (emit_fill_events a fs side n d).1
unfolding emit_fill_events
emit_fill_events-SameSlots a [] side n d = SameSlots-refl a
emit_fill_events-SameSlots a (f ∷ fs) side n d = elim (Bool-cases appended.0) [
  | inl h ↦
      rw (h, emit_fill_events)
        (SameSlots-trans a appended.1 (emit_fill_events appended.1 fs side n d).1
          (append_event-SameSlots a (fill_event side n d f))
          (emit_fill_events-SameSlots appended.1 fs side n d))
  | inr h ↦ rw (h, emit_fill_events) (append_event-SameSlots a (fill_event side n d f))
]
  where
    appended : Bool × OrderBook
    appended = append_event a (fill_event side n d f)

with_book-SameSlots :
    (a : OrderBook) (book : Book) (r : Result Book) → SameSlots a (with_book a book r).1
with_book-SameSlots a book (ok b) = SameSlots-refl a
with_book-SameSlots a book (err e) = SameSlots-refl a

deferred-account : (book : Book) (r : Bool × OrderBook) → (deferred book r).1 ≡ r.1
deferred-account book (true, a) = refl
deferred-account book (false, a) = refl

settle_remainder-SameSlots :
    (a : OrderBook) (book : Book) (incoming : Order) (outcome : MatchOutcome)
    → SameSlots a (settle_remainder a book incoming outcome).1
unfolding settle_remainder
settle_remainder-SameSlots a book incoming outcome = by_residual outcome.residual refl
  where
    by_residual :
        (o : Option Order)
        → outcome.residual ≡ o
        → SameSlots a (settle_remainder a book incoming outcome).1
    by_residual (some residual) h =
        rw (h, settle_remainder, deferred-account book (append_event a (residual_event residual)))
          (append_event-SameSlots a (residual_event residual))
    by_residual none h = elim (Bool-cases (ltb 0 (remainder_of incoming outcome.fills).size)) [
      | inl k ↦
          rw (h, k, settle_remainder)
            (with_book-SameSlots a book (
              rest_remainder book (remainder_of incoming outcome.fills) (total_size outcome.fills)))
      | inr k ↦ rw (h, k, settle_remainder) (SameSlots-refl a)
    ]

after_fills-SameSlots :
    (a : OrderBook) (book : Book) (incoming : Order) (outcome : MatchOutcome)
    (r : Result (Unit {0}) × OrderBook)
    → SameSlots a r.1
    → SameSlots a (after_fills book incoming outcome r).1
unfolding settle_remainder
after_fills-SameSlots a book incoming outcome (ok x, account) h =
    SameSlots-trans a account (settle_remainder account book incoming outcome).1 h
      (settle_remainder-SameSlots account book incoming outcome)
after_fills-SameSlots a book incoming outcome (err e, account) h = h

pub match_limit_taker-SameSlots :
    (a : OrderBook) (book : Book) (incoming : Order) (n d : ℕ)
    → SameSlots a (match_limit_taker a book incoming n d).1
unfolding match_limit_taker
match_limit_taker-SameSlots a book incoming n d =
    let matched : Book × MatchOutcome = match_order book incoming OrderKind.limit max_match_steps in
    after_fills-SameSlots a matched.0 incoming matched.1
      (emit_fill_events a matched.1.fills (opposite incoming.side) n d)
      (emit_fill_events-SameSlots a matched.1.fills (opposite incoming.side) n d)

finish_open-SameSlots :
    (a : OrderBook) (book : Book) (incoming : Order) (outcome : MatchOutcome) (n d : ℕ)
    {r : OrderBook × Book × List Fill}
    → finish_open a book incoming outcome n d ≡ ok r
    → SameSlots a r.0
unfolding finish_open
finish_open-SameSlots a book incoming outcome n d e =
    let emitted : Result (Unit {0}) × OrderBook =
      emit_fill_events a outcome.fills (opposite incoming.side) n d in
    let remainder : Order = remainder_of incoming outcome.fills in
    let (x, h, e1) = >>=-eq-ok emitted.0 _ e in
    let (book', h1, e2) =
      >>=-eq-ok
        (if ltb 0 incoming.price && ltb 0 remainder.size && is_none_order outcome.residual
          then rest_remainder book remainder (total_size outcome.fills)
          else ok book)
        _ e1 in
    subst (λ x. SameSlots a x.0) (ok-injective e2)
      (emit_fill_events-SameSlots a outcome.fills (opposite incoming.side) n d)

pub match_open_taker-SameSlots :
    (a : OrderBook) (book : Book) (incoming : Order) (n d : ℕ) {r : OrderBook × Book × List Fill}
    → match_open_taker a book incoming n d ≡ ok r
    → SameSlots a r.0
unfolding match_open_taker
match_open_taker-SameSlots a book incoming n d {r} = elim (Bool-cases (incoming.price == 0)) [
  | inl h ↦ rw (h, match_open_taker) (finished OrderKind.market (u64_size - 1))
  | inr h ↦ elim (Bool-cases (would_cross book incoming)) [
    | inl k ↦ rw (h, k, match_open_taker) (finished OrderKind.limit max_match_steps)
    | inr k ↦
        rw (h, k, match_open_taker)
          (λ e.
            let (book', k1, e1) = >>=-eq-ok (post_limit book incoming) _ e in
            subst (λ x. SameSlots a x.0) (ok-injective e1) (SameSlots-refl a))
  ]
]
  where
    finished :
        (kind : OrderKind) (max_steps : ℕ)
        → finish_open a
            (match_order book incoming kind max_steps).0
            incoming
            (match_order book incoming kind max_steps).1
            n
            d
          ≡ ok r
        → SameSlots a r.0
    finished kind max_steps e =
        finish_open-SameSlots a (match_order book incoming kind max_steps).0 incoming
          (match_order book incoming kind max_steps).1 n d e
