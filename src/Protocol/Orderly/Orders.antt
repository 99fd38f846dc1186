-- ===== src/Protocol/Orderly/Orders.antt =====
-- The instructions on orders keep the book account.
use fructus.Base.{
  ℕ, ◌-◌, ◌<◌, ◌≡◌, subst, inl, inr, not, Bool, true, false, arith, ◌==◌, if◌then◌else◌, Bool-cases,
  u64_size,
}
use fructus.Errors.{Result, ok, FructusError, ◌>>◌, >>=-eq-ok}
use fructus.Errors.Steps.{ok-injective, require-eq-ok}
use fructus.Exchange.{AccountInfo, ExchangeRate, read_stake_pool}
use fructus.State.{OrderBook}
use fructus.Orderbook.{OrderKind, Order, MatchOutcome, Book, would_cross}
use fructus.Orderbook.Engine.{match_order, post_limit, cancel, opposite}
use fructus.Orderbook.Engine.Orderly.{IsOrderly, match_order-IsOrderly}
use fructus.Orderbook.Engine.Posting.{post_limit-IsOrderly}
use fructus.Orderbook.Engine.Quotes.{Cancelled, cancel-Cancelled}
use fructus.Adapter.Books.{side_from_u8, load_book, take_next_seq}
use fructus.Adapter.Events.{append_event, emit_fill_events}
use fructus.Adapter.Takers.{match_limit_taker}
use fructus.Adapter.Takers.Orderly.{take_next_seq-IsOrderly, match_limit_taker-IsOrderly}
use fructus.Adapter.Crank.{drain_events}
use fructus.Adapter.Crank.Orderly.{drain_events-IsOrderly}
use fructus.Adapter.Slots.{
  SameSlots, SameSlots-refl, append_event-SameSlots, emit_fill_events-SameSlots,
  match_limit_taker-SameSlots,
}
use fructus.Adapter.Slots.Draining.{drain_events-Drained}
use fructus.Handlers.Orders.{
  persist, place_limit, place_limit_order, place_market_order, cancel_event, cancel_order, crank,
}
use fructus.Protocol.Orderly.Kept.{
  IsKept, KeptFrom, IsKept-KeptFrom, KeptFrom-IsKept, SameSlots-KeptFrom, persist-KeptFrom,
}

place_limit-KeptFrom :
    {origin : OrderBook} (a : OrderBook) (book : Book) (incoming : Order) (rate : ExchangeRate)
    (slot : ℕ) {a' : OrderBook}
    → 0 < incoming.size
    → incoming.seq < book.next_seq
    → KeptFrom origin a
    → IsOrderly book
    → place_limit a book incoming rate slot ≡ ok a'
    → KeptFrom origin a'
unfolding place_limit
place_limit-KeptFrom {origin} a book incoming rate slot {a'} sized older k v =
    elim (Bool-cases (would_cross book incoming)) [
      | inl h ↦ rw (h, place_limit) crossing
      | inr h ↦
          rw (h, place_limit)
            (λ e.
              let (book', w, e1) = >>=-eq-ok (post_limit book incoming) _ e in
              persist-KeptFrom a a book' slot (SameSlots-refl a) k
                (post_limit-IsOrderly book incoming sized older v w) e1)
    ]
  where
    matched : Result (Unit {0}) × OrderBook × Book
    matched = match_limit_taker a book incoming rate.total_lamports rate.pool_token_supply

    crossing : (matched.0 >> persist matched.1 matched.2 slot) ≡ ok a' → KeptFrom origin a'
    crossing e =
        let (x, h, e1) = >>=-eq-ok matched.0 _ e in
        persist-KeptFrom a matched.1 matched.2 slot
          (match_limit_taker-SameSlots a book incoming rate.total_lamports rate.pool_token_supply) k
          (match_limit_taker-IsOrderly a book incoming rate.total_lamports rate.pool_token_supply
            older v)
          e1

pub place_limit_order-KeptFrom :
    {origin : OrderBook} (a : OrderBook) (index_source : AccountInfo)
    (owner slot side price size : ℕ) {a' : OrderBook}
    → KeptFrom origin a
    → place_limit_order a index_source owner slot side price size ≡ ok a'
    → KeptFrom origin a'
unfolding place_limit_order
place_limit_order-KeptFrom {origin} a index_source owner slot side price size k e =
    let (h1, e1) = require-eq-ok (not (price == 0)) FructusError.invalid_price _ e in
    let (h2, e2) = require-eq-ok (not (size == 0)) FructusError.invalid_size _ e1 in
    let (parsed, h3, e3) = >>=-eq-ok (side_from_u8 side) _ e2 in
    let (rate, h4, e4) = >>=-eq-ok (read_stake_pool index_source) _ e3 in
    let (taken, h5, e5) = >>=-eq-ok (take_next_seq (load_book a)) _ e4 in
    let (v, older) = take_next_seq-IsOrderly (load_book a) k.orderly h5 in
    place_limit-KeptFrom a taken.0
      (record { owner = owner; side = parsed; price = price; size = size; seq = taken.1 }) rate slot
      (ground (arith, h2)) older k v e5

pub place_market_order-KeptFrom :
    {origin : OrderBook} (a : OrderBook) (index_source : AccountInfo) (owner slot side size : ℕ)
    {a' : OrderBook}
    → KeptFrom origin a
    → place_market_order a index_source owner slot side size ≡ ok a'
    → KeptFrom origin a'
unfolding place_market_order
place_market_order-KeptFrom {origin} a index_source owner slot side size k e =
    let (h2, e2) = require-eq-ok (not (size == 0)) FructusError.invalid_size _ e in
    let (parsed, h3, e3) = >>=-eq-ok (side_from_u8 side) _ e2 in
    let (rate, h4, e4) = >>=-eq-ok (read_stake_pool index_source) _ e3 in
    let (taken, h5, e5) = >>=-eq-ok (take_next_seq (load_book a)) _ e4 in
    let (v, older) = take_next_seq-IsOrderly (load_book a) k.orderly h5 in
    let incoming : Order = record {
      owner = owner;
      side = parsed;
      price = 0;
      size = size;
      seq = taken.1;
    } in
    let matched : Book × MatchOutcome =
      match_order taken.0 incoming OrderKind.market (u64_size - 1) in
    let emitted : Result (Unit {0}) × OrderBook =
      emit_fill_events a matched.1.fills (opposite parsed) rate.total_lamports
        rate.pool_token_supply in
    let (x, h6, e6) = >>=-eq-ok emitted.0 _ e5 in
    persist-KeptFrom a emitted.1 matched.0 slot
      (emit_fill_events-SameSlots a matched.1.fills (opposite parsed) rate.total_lamports
        rate.pool_token_supply)
      k (match_order-IsOrderly taken.0 incoming OrderKind.market (u64_size - 1) v) e6

pub cancel_order-KeptFrom :
    {origin : OrderBook} (a : OrderBook) (owner slot seq : ℕ) {a' : OrderBook}
    → KeptFrom origin a
    → cancel_order a owner slot seq ≡ ok a'
    → KeptFrom origin a'
unfolding cancel_order
cancel_order-KeptFrom {origin} a owner slot seq k e =
    let (removed, h, e1) = >>=-eq-ok (cancel (load_book a) owner seq) _ e in
    let c : Cancelled (load_book a) owner seq removed.0 removed.1 =
      cancel-Cancelled (load_book a) owner seq h in
    persist-KeptFrom a (append_event a (cancel_event owner removed.1)).1 removed.0 slot
      (append_event-SameSlots a (cancel_event owner removed.1)) k (c.orderly k.orderly) e1

pub crank-KeptFrom :
    {origin : OrderBook} (a : OrderBook) (index_source : AccountInfo) (slot : ℕ) {a' : OrderBook}
    → KeptFrom origin a
    → crank a index_source slot ≡ ok a'
    → KeptFrom origin a'
unfolding crank
crank-KeptFrom {origin} a index_source slot {a'} k e =
    let (rate, h, e1) = >>=-eq-ok (read_stake_pool index_source) _ e in
    let n : ℕ = rate.total_lamports in
    let d : ℕ = rate.pool_token_supply in
    let (s, h1, e2) = >>=-eq-ok (drain_events a (load_book a) n d) _ e1 in
    let (same, clean) = drain_events-Drained a (load_book a) n d h1 in
    by_dirty s.0 s.1 s.2 same (drain_events-IsOrderly a (load_book a) n d k.orderly h1) e2
  where
    by_dirty :
        (a1 : OrderBook) (book : Book) (dirty : Bool)
        → SameSlots a a1
        → IsOrderly book
        → (if dirty then persist a1 book slot else ok a1) ≡ ok a'
        → KeptFrom origin a'
    by_dirty a1 book true same v e = persist-KeptFrom a a1 book slot same k v e
    by_dirty a1 book false same v e =
        subst (KeptFrom origin) (ok-injective e) (SameSlots-KeptFrom a a1 same k)

-- A crank leaves the account kept, the book written back or untouched.
pub crank-IsKept :
    (a : OrderBook) (index_source : AccountInfo) (slot : ℕ) {a' : OrderBook}
    → IsKept a
    → crank a index_source slot ≡ ok a'
    → IsKept a'
crank-IsKept a index_source slot {a'} k e =
    KeptFrom-IsKept a' (crank-KeptFrom a index_source slot (IsKept-KeptFrom a k) e)
