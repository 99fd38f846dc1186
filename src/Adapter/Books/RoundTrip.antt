-- ===== src/Adapter/Books/RoundTrip.antt =====
-- `save_book` and `load_book`: a book that fits is written, and is read back as it was.
use fructus.Base.{
  ◌≤◌, ◌≡◌, refl, sym, ap, subst, Option, none, some, List, [], ◌∷◌, map, arith, length, select,
  All,
}
use mathlib.Core.Option.{some-injective}
use fructus.Errors.{ok, >>=-eq-ok}
use fructus.Errors.Steps.{ok-injective}
use fructus.State.{OrderBook, empty_order}
use fructus.State
use fructus.Orderbook.{Side, Order, Book, best_bid, best_ask}
use fructus.Adapter.Books.{
  order_of, slot_of, is_active, push_slot, write_slots, or_panic, load_book, save_book,
}

-- Every resting order of a book stands on its own side.
pub record IsSided (book : Book) : Type 0 where
  pub bids_bid : All (λ o. o.side ≡ Side.bid) book.bids
  pub asks_ask : All (λ o. o.side ≡ Side.ask) book.asks

push_slot-eq-some :
    (slot : State.Order) (o : Option (List State.Order)) {r : List State.Order}
    → push_slot slot o ≡ some r
    → (rest : List State.Order) × (o ≡ some rest) × (slot ∷ rest ≡ r)
push_slot-eq-some slot none h = cc
push_slot-eq-some slot (some rest) h = (rest, refl, cc)

push_slot-some :
    (slot : State.Order) (o : Option (List State.Order))
    → (rest : List State.Order) × (o ≡ some rest)
    → (r : List State.Order) × (push_slot slot o ≡ some r)
push_slot-some slot o (rest, h) = (slot ∷ rest, ap (push_slot slot) h)

or_panic-eq-ok {ℓ} : {A : Type ℓ} {o : Option A} {a : A} → or_panic o ≡ ok a → o ≡ some a
or_panic-eq-ok {o = none} h = cc
or_panic-eq-ok {o = some b} h = cc

order_of-slot_of : (side : Side) (o : Order) → o.side ≡ side → order_of side (slot_of o) ≡ o
order_of-slot_of side o h = cc

read-write_slots :
    (side : Side) (slots : List State.Order) (os : List Order) {r : List State.Order}
    → All (λ o. o.side ≡ side) os
    → write_slots slots os ≡ some r
    → map (order_of side) (select is_active r) ≡ os
unfolding write_slots
read-write_slots side [] [] a e =
    subst (λ x. map (order_of side) (select is_active x) ≡ []) (some-injective [] _ e) refl
read-write_slots side [] (o ∷ os) a e = cc
read-write_slots side (slot ∷ slots) [] a e =
    let (rest, h, h1) = push_slot-eq-some empty_order (write_slots slots []) e in
    subst (λ x. map (order_of side) (select is_active x) ≡ []) h1
      (read-write_slots side slots [] tt h)
read-write_slots side (slot ∷ slots) (o ∷ os) a e =
    let (rest, h, h1) = push_slot-eq-some (slot_of o) (write_slots slots os) e in
    subst (λ x. map (order_of side) (select is_active x) ≡ o ∷ os) h1
      (rw (order_of-slot_of side o a.0, read-write_slots side slots os a.1 h))

write_slots-some :
    (slots : List State.Order) (os : List Order)
    → length os ≤ length slots
    → (r : List State.Order) × (write_slots slots os ≡ some r)
unfolding write_slots
write_slots-some [] [] h = ([], refl)
write_slots-some [] (o ∷ os) h = elim h [ ]
write_slots-some (slot ∷ slots) [] h =
    push_slot-some empty_order (write_slots slots []) (write_slots-some slots [] (omega arith))
write_slots-some (slot ∷ slots) (o ∷ os) h =
    push_slot-some (slot_of o) (write_slots slots os) (write_slots-some slots os (omega arith))

length-write_slots :
    (slots : List State.Order) (os : List Order) {r : List State.Order}
    → write_slots slots os ≡ some r
    → length r ≡ length slots
unfolding write_slots
length-write_slots [] [] e = ap length (sym (some-injective [] _ e))
length-write_slots [] (o ∷ os) e = cc
length-write_slots (slot ∷ slots) [] e =
    let (rest, h, h1) = push_slot-eq-some empty_order (write_slots slots []) e in
    omega (arith, ap length h1, length-write_slots slots [] h)
length-write_slots (slot ∷ slots) (o ∷ os) e =
    let (rest, h, h1) = push_slot-eq-some (slot_of o) (write_slots slots os) e in
    omega (arith, ap length h1, length-write_slots slots os h)

-- Saving a book keeps the number of slots of each side, and the ring with its write cursor.
pub save_book-lengths :
    (account : OrderBook) (book : Book) {account' : OrderBook}
    → save_book account book ≡ ok account'
    → (length account'.bids ≡ length account.bids)
      × (length account'.asks ≡ length account.asks)
      × (account'.events ≡ account.events)
      × (account'.event_write_cursor ≡ account.event_write_cursor)
unfolding save_book
save_book-lengths account book e =
    let (bids, h, e1) = >>=-eq-ok (or_panic (write_slots account.bids book.bids)) _ e in
    let (asks, h1, e2) = >>=-eq-ok (or_panic (write_slots account.asks book.asks)) _ e1 in
    subst
      (λ x.
        (length x.bids ≡ length account.bids)
        × (length x.asks ≡ length account.asks)
        × (x.events ≡ account.events)
        × (x.event_write_cursor ≡ account.event_write_cursor))
      (ok-injective e2)
      (
        length-write_slots account.bids book.bids (or_panic-eq-ok h),
        length-write_slots account.asks book.asks (or_panic-eq-ok h1),
        refl,
        refl,
      )

-- A book with at most as many orders on each side as the account has slots there is saved.
pub save_book_total :
    (account : OrderBook) (book : Book)
    → length book.bids ≤ length account.bids
    → length book.asks ≤ length account.asks
    → (account' : OrderBook) × (save_book account book ≡ ok account')
unfolding save_book
save_book_total account book h k =
    let (bids, e) = write_slots-some account.bids book.bids h in
    let (asks, e1) = write_slots-some account.asks book.asks k in
    (
      record account {
        bids = bids;
        asks = asks;
        next_seq = book.next_seq;
        best_bid = best_bid book;
        best_ask = best_ask book;
      },
      rw (e, e1),
    )

-- What `save_book` writes, `load_book` reads back: every order on its side, in its place in time.
pub load_book-save_book :
    (account : OrderBook) (book : Book) {account' : OrderBook}
    → IsSided book
    → save_book account book ≡ ok account'
    → load_book account' ≡ book
unfolding save_book load_book
load_book-save_book account book s e =
    let (bids, h, e1) = >>=-eq-ok (or_panic (write_slots account.bids book.bids)) _ e in
    let (asks, h1, e2) = >>=-eq-ok (or_panic (write_slots account.asks book.asks)) _ e1 in
    subst (λ x. load_book x ≡ book) (ok-injective e2)
      (rw (
        read-write_slots Side.bid account.bids book.bids s.bids_bid (or_panic-eq-ok h),
        read-write_slots Side.ask account.asks book.asks s.asks_ask (or_panic-eq-ok h1),
      ))
