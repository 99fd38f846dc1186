-- ===== src/Adapter/Slots/Draining.antt =====
-- A batch of the crank, on the account it is handed: the orders in it are what they were, and a batch that
-- is not dirty has left the book alone.
use fructus.Base.{
  ℕ, zero, suc, ◌+◌, ◌≡◌, refl, subst, ◌∙◌, inl, inr, Bool, true, false, ◌||◌, ltb, ◌==◌,
  if◌then◌else◌, arith, Bool-cases, u64_size,
}
use fructus.Errors.{ok, FructusError, >>=-eq-ok}
use fructus.Errors.Steps.{ok-injective, ok_or-checked_add}
use fructus.Constants.{crank_batch_len, event_kind_residual}
use fructus.State.{OrderBook, OutEvent}
use fructus.Orderbook.{Side, Book}
use fructus.Adapter.Books.{side_from_u8, take_next_seq}
use fructus.Adapter.Events.{event_at}
use fructus.Adapter.Events.Writes.{kept, Written-trans}
use fructus.Adapter.Crank.{
  resumed_order, events_needed, free_slots, resume_match, resume_residual, handle_event, drain_step,
  drain_rounds, drain_events,
}
use fructus.Adapter.Slots.{SameSlots, SameSlots-refl, SameSlots-trans, match_limit_taker-SameSlots}

abbrev pub Drained : OrderBook → Book → OrderBook × Book × Bool → Type 0
Drained a book r = SameSlots a r.0 × (r.2 ≡ false → r.1 ≡ book)

Drained-refl : (a : OrderBook) (book : Book) (dirty : Bool) → Drained a book (a, book, dirty)
Drained-refl a book dirty = (SameSlots-refl a, λ h. refl)

resume_match-Drained :
    (a : OrderBook) (book : Book) (event : OutEvent) (side : Side) (n d : ℕ)
    {r : OrderBook × Book × Bool}
    → resume_match a book event side n d ≡ ok r
    → Drained a book r
unfolding resume_match
resume_match-Drained a book event side n d e =
    let (taken, h, e1) = >>=-eq-ok (take_next_seq book) _ e in
    subst (Drained a book) (ok-injective e1)
      (match_limit_taker-SameSlots a taken.0 (resumed_order event side taken.1) n d, λ never. cc)

resume_residual-Drained :
    (a : OrderBook) (book : Book) (event : OutEvent) (n d : ℕ) {r : OrderBook × Book × Bool}
    → resume_residual a book event n d ≡ ok r
    → Drained a book r
unfolding resume_residual
resume_residual-Drained a book event n d {r} e =
    let (side, h, e1) = >>=-eq-ok (side_from_u8 event.side) _ e in
    by_room side (ltb (free_slots a) (events_needed book (resumed_order event side book.next_seq)))
      e1
  where
    by_room :
        (side : Side) (t : Bool)
        → (if t then ok (a, book, false) else resume_match a book event side n d) ≡ ok r
        → Drained a book r
    by_room side true e = subst (Drained a book) (ok-injective e) (Drained-refl a book false)
    by_room side false e = resume_match-Drained a book event side n d e

handle_event-Drained :
    (a : OrderBook) (book : Book) (event : OutEvent) (n d : ℕ) {r : OrderBook × Book × Bool}
    → handle_event a book event n d ≡ ok r
    → Drained a book r
unfolding handle_event
handle_event-Drained a book event n d {r} = elim (Bool-cases (event.kind == event_kind_residual)) [
  | inl h ↦ rw (h, handle_event) (λ e. resume_residual-Drained a book event n d e)
  | inr h ↦
      rw (h, handle_event)
        (λ e. subst (Drained a book) (ok-injective e) (Drained-refl a book false))
]

drain_step-Drained :
    (a : OrderBook) (book : Book) (dirty : Bool) (n d : ℕ) {r : OrderBook × Book × Bool}
    → drain_step a book dirty n d ≡ ok r
    → Drained a book r × (r.2 ≡ false → dirty ≡ false)
unfolding drain_step
drain_step-Drained a book dirty n d e =
    let (h, e1) =
      ok_or-checked_add u64_size a.event_read_cursor 1 FructusError.arithmetic_overflow _ e in
    let moved : OrderBook = record a { event_read_cursor = a.event_read_cursor + 1 } in
    let (handled, k, e2) =
      >>=-eq-ok (handle_event moved book (event_at a a.event_read_cursor) n d) _ e1 in
    let (k1, k2) = handle_event-Drained moved book (event_at a a.event_read_cursor) n d k in
    let same : SameSlots a handled.0 = record {
      same_bids = k1.same_bids;
      same_asks = k1.same_asks;
      same_next_seq = k1.same_next_seq;
      same_ring = k1.same_ring;
      written = Written-trans a moved handled.0 (0, kept 0 a moved refl refl refl) k1.written;
    } in
    subst (λ x. Drained a book x × (x.2 ≡ false → dirty ≡ false)) (ok-injective e2)
      ((same, λ c. k2 (or-false_right dirty handled.2 c)), λ c. or-false_left dirty handled.2 c)
  where
    or-false_right : (p q : Bool) → (p || q) ≡ false → q ≡ false
    or-false_right p q h = ground arith

    or-false_left : (p q : Bool) → (p || q) ≡ false → p ≡ false
    or-false_left p q h = ground arith

pub drain_rounds-Drained :
    (rounds : ℕ) (a : OrderBook) (book : Book) (dirty : Bool) (n d : ℕ)
    {r : OrderBook × Book × Bool}
    → drain_rounds rounds a book dirty n d ≡ ok r
    → Drained a book r × (r.2 ≡ false → dirty ≡ false)
unfolding drain_rounds
drain_rounds-Drained zero a book dirty n d = λ e.
    subst (λ x. Drained a book x × (x.2 ≡ false → dirty ≡ false)) (ok-injective e)
      (Drained-refl a book dirty, λ h. h)
drain_rounds-Drained (suc rounds) a book dirty n d {r} =
    elim (Bool-cases (ltb a.event_read_cursor a.event_write_cursor)) [
      | inl h ↦
          rw (h, drain_rounds)
            (λ e.
              let (s, k, e1) = >>=-eq-ok (drain_step a book dirty n d) _ e in
              let ((k1, k2), k3) = drain_step-Drained a book dirty n d k in
              let ((k4, k5), k6) = drain_rounds-Drained rounds s.0 s.1 s.2 n d e1 in
              ((SameSlots-trans a s.0 r.0 k1 k4, λ c. k5 c ∙ k2 (k6 c)), λ c. k3 (k6 c)))
      | inr h ↦
          rw (h, drain_rounds)
            (λ e.
              subst (λ x. Drained a book x × (x.2 ≡ false → dirty ≡ false)) (ok-injective e)
                (Drained-refl a book dirty, λ h. h))
    ]

-- A batch that goes through leaves the slots of the account as they are; the book it returns is another
-- one only if it says so.
pub drain_events-Drained :
    (a : OrderBook) (book : Book) (n d : ℕ) {r : OrderBook × Book × Bool}
    → drain_events a book n d ≡ ok r
    → Drained a book r
unfolding drain_events
drain_events-Drained a book n d e = (drain_rounds-Drained crank_batch_len a book false n d e).0
