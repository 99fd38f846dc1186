-- ===== src/Protocol/Orderly/Kept.antt =====
-- A book account that the instructions can go on with, and writing a book back into it.
use fructus.Base.{ℕ, ◌≡◌, refl, ap, subst, ◌∙◌, length}
use fructus.Errors.{ok, >>=-eq-ok}
use fructus.Errors.Steps.{ok-injective}
use fructus.Constants.{max_orders_per_side, event_queue_len}
use fructus.State.{OrderBook}
use fructus.Orderbook.{Book}
use fructus.Orderbook.Engine.Orderly.{IsOrderly}
use fructus.Adapter.Books.{load_book, save_book}
use fructus.Adapter.Books.RoundTrip.{save_book-lengths}
use fructus.Adapter.Events.Writes.{Written, Written-refl, Written-trans, kept}
use fructus.Adapter.Observations.{record_observation}
use fructus.Adapter.Slots.{SameSlots, SameSlots-load_book}
use fructus.Handlers.Orders.{persist}
use fructus.Handlers.Orders.Preservation.{persist-IsOrderly, persist_total}

-- The book in the account is well-formed, and the account has all its slots.
pub record IsKept (a : OrderBook) : Type 0 where
  pub orderly : IsOrderly (load_book a)
  pub bid_slots : length a.bids ≡ max_orders_per_side
  pub ask_slots : length a.asks ≡ max_orders_per_side
  pub ring : length a.events ≡ event_queue_len

-- It is kept, and nothing has been written on the ring since `origin` but new events and settlements.
pub record KeptFrom (origin a : OrderBook) : Type 0 where
  pub orderly : IsOrderly (load_book a)
  pub bid_slots : length a.bids ≡ max_orders_per_side
  pub ask_slots : length a.asks ≡ max_orders_per_side
  pub ring : length a.events ≡ event_queue_len
  pub written : Written origin a

pub IsKept-KeptFrom : (a : OrderBook) → IsKept a → KeptFrom a a
IsKept-KeptFrom a v = record {
  orderly = v.orderly;
  bid_slots = v.bid_slots;
  ask_slots = v.ask_slots;
  ring = v.ring;
  written = Written-refl a;
}

pub KeptFrom-IsKept : {origin : OrderBook} (a : OrderBook) → KeptFrom origin a → IsKept a
KeptFrom-IsKept a v = record {
  orderly = v.orderly;
  bid_slots = v.bid_slots;
  ask_slots = v.ask_slots;
  ring = v.ring;
}

pub SameSlots-KeptFrom :
    {origin : OrderBook} (a a' : OrderBook)
    → SameSlots a a'
    → KeptFrom origin a
    → KeptFrom origin a'
SameSlots-KeptFrom {origin} a a' same v = record {
  orderly = rw (SameSlots-load_book a a' same) v.orderly;
  bid_slots = ap length same.same_bids ∙ v.bid_slots;
  ask_slots = ap length same.same_asks ∙ v.ask_slots;
  ring = same.same_ring ∙ v.ring;
  written = Written-trans origin a a' v.written same.written;
}

persist-lengths :
    (a : OrderBook) (book : Book) (slot : ℕ) {a' : OrderBook}
    → persist a book slot ≡ ok a'
    → (length a'.bids ≡ length a.bids)
      × (length a'.asks ≡ length a.asks)
      × (a'.events ≡ a.events)
      × (a'.event_write_cursor ≡ a.event_write_cursor)
unfolding persist record_observation
persist-lengths a book slot e =
    let (saved, h, e1) = >>=-eq-ok (save_book a book) _ e in
    subst
      (λ x.
        (length x.bids ≡ length a.bids)
        × (length x.asks ≡ length a.asks)
        × (x.events ≡ a.events)
        × (x.event_write_cursor ≡ a.event_write_cursor))
      (ok-injective e1) (save_book-lengths a book h)

-- A well-formed book written back, after events have been appended to the account.
pub persist-KeptFrom :
    {origin : OrderBook} (a a1 : OrderBook) (book : Book) (slot : ℕ) {a' : OrderBook}
    → SameSlots a a1
    → KeptFrom origin a
    → IsOrderly book
    → persist a1 book slot ≡ ok a'
    → KeptFrom origin a'
persist-KeptFrom {origin} a a1 book slot {a'} same v w e =
    let k : KeptFrom origin a1 = SameSlots-KeptFrom a a1 same v in
    let (h, h1, h2, h3) = persist-lengths a1 book slot e in
    record {
      orderly = persist-IsOrderly a1 book slot w e;
      bid_slots = h ∙ k.bid_slots;
      ask_slots = h1 ∙ k.ask_slots;
      ring = ap length h2 ∙ k.ring;
      written = Written-trans origin a1 a' k.written (0, kept 0 a1 a' refl h2 h3);
    }

-- Into an account that is kept, a well-formed book can be written.
pub persist-goes_through :
    (a : OrderBook) (book : Book) (slot : ℕ)
    → IsKept a
    → IsOrderly book
    → (a' : OrderBook) × (persist a book slot ≡ ok a')
persist-goes_through a book slot v w = persist_total a book slot v.bid_slots v.ask_slots w
