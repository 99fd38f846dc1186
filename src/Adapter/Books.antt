-- ===== src/Adapter/Books.antt =====
-- programs/fructus/src/lib.rs: sides as bytes, and the order-book account read into the engine's book
-- and written back.
pub mod RoundTrip
use fructus.Base.{
  ℕ, ◌+◌, Bool, not, Option, none, some, List, [], ◌∷◌, map, ◌==◌, if◌then◌else◌, select,
  checked_add, u64_size,
}
use fructus.Errors.{Result, ok, err, Error, FructusError, ok_or, ◌>>=◌}
use fructus.Constants.{side_bid, side_ask}
use fructus.State.{OrderBook, empty_order}
use fructus.State
use fructus.Orderbook.{Side, Order, Book, best_bid, best_ask}

unfoldable pub side_to_u8 : Side → ℕ
side_to_u8 Side.bid = side_bid
side_to_u8 Side.ask = side_ask

unfoldable pub side_from_u8 : ℕ → Result Side
side_from_u8 side =
    if side == side_bid
    then ok Side.bid
    else if side == side_ask
    then ok Side.ask
    else err Error.invalid_instruction_data

abbrev pub is_active : State.Order → Bool
is_active slot = not (slot.active == 0)

abbrev pub order_of : Side → State.Order → Order
order_of side slot = record {
  owner = slot.owner;
  side = side;
  price = slot.price;
  size = slot.size;
  seq = slot.seq;
}

unfoldable pub load_book : OrderBook → Book
load_book account = record {
  bids = map (order_of Side.bid) (select is_active account.bids);
  asks = map (order_of Side.ask) (select is_active account.asks);
  next_seq = account.next_seq;
}

abbrev pub slot_of : Order → State.Order
slot_of o = record { owner = o.owner; price = o.price; size = o.size; seq = o.seq; active = 1 }

abbrev pub push_slot : State.Order → Option (List State.Order) → Option (List State.Order)
push_slot slot none = none
push_slot slot (some slots) = some (slot ∷ slots)

-- The slots of a side cleared and written from the first one on; nothing where an order has no slot.
unfoldable pub write_slots : List State.Order → List Order → Option (List State.Order)
write_slots [] [] = some []
write_slots [] (o ∷ os) = none
write_slots (slot ∷ slots) [] = push_slot empty_order (write_slots slots [])
write_slots (slot ∷ slots) (o ∷ os) = push_slot (slot_of o) (write_slots slots os)

-- An index beyond the array is a panic.
abbrev pub or_panic {ℓ} : {A : Type ℓ} → Option A → Result A
or_panic none = err Error.panicked
or_panic (some a) = ok a

unfoldable pub save_book : OrderBook → Book → Result OrderBook
unfolding write_slots
save_book account book = do
  bids ← or_panic (write_slots account.bids book.bids)
  asks ← or_panic (write_slots account.asks book.asks)
  ok (record account {
    bids = bids;
    asks = asks;
    next_seq = book.next_seq;
    best_bid = best_bid book;
    best_ask = best_ask book;
  })

unfoldable pub take_next_seq : Book → Result (Book × ℕ)
take_next_seq book = do
  next ← ok_or (checked_add u64_size book.next_seq 1) FructusError.arithmetic_overflow
  ok (record book { next_seq = next }, book.next_seq)
