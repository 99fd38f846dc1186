-- ===== src/Adapter/Crank/Orderly.antt =====
-- A batch of the crank keeps the book well-formed.
use fructus.Base.{
  ℕ, zero, suc, ◌+◌, ◌≡◌, subst, inl, inr, Bool, true, false, ltb, ◌==◌, if◌then◌else◌, Bool-cases,
  u64_size,
}
use fructus.Errors.{ok, FructusError, >>=-eq-ok}
use fructus.Errors.Steps.{ok-injective, ok_or-checked_add}
use fructus.Constants.{crank_batch_len, event_kind_residual}
use fructus.State.{OrderBook, OutEvent}
use fructus.Orderbook.{Side, Book}
use fructus.Orderbook.Engine.Orderly.{IsOrderly}
use fructus.Adapter.Books.{side_from_u8, take_next_seq}
use fructus.Adapter.Events.{event_at}
use fructus.Adapter.Takers.Orderly.{take_next_seq-IsOrderly, match_limit_taker-IsOrderly}
use fructus.Adapter.Crank.{
  resumed_order, events_needed, free_slots, resume_match, resume_residual, handle_event, drain_step,
  drain_rounds, drain_events,
}

resume_match-IsOrderly :
    (account : OrderBook) (book : Book) (event : OutEvent) (side : Side) (n d : ℕ)
    {r : OrderBook × Book × Bool}
    → IsOrderly book
    → resume_match account book event side n d ≡ ok r
    → IsOrderly r.1
unfolding resume_match resumed_order
resume_match-IsOrderly account book event side n d v e =
    let (taken, h, e1) = >>=-eq-ok (take_next_seq book) _ e in
    let (v1, older) = take_next_seq-IsOrderly book v h in
    subst (λ x. IsOrderly x.1) (ok-injective e1)
      (match_limit_taker-IsOrderly account taken.0 (resumed_order event side taken.1) n d older v1)

resume_residual-IsOrderly :
    (account : OrderBook) (book : Book) (event : OutEvent) (n d : ℕ) {r : OrderBook × Book × Bool}
    → IsOrderly book
    → resume_residual account book event n d ≡ ok r
    → IsOrderly r.1
unfolding resume_residual
resume_residual-IsOrderly account book event n d {r} v e =
    let (side, h, e1) = >>=-eq-ok (side_from_u8 event.side) _ e in
    by_room side
      (ltb (free_slots account) (events_needed book (resumed_order event side book.next_seq))) e1
  where
    by_room :
        (side : Side) (t : Bool)
        → (if t then ok (account, book, false) else resume_match account book event side n d) ≡ ok r
        → IsOrderly r.1
    by_room side true e = subst (λ x. IsOrderly x.1) (ok-injective e) v
    by_room side false e = resume_match-IsOrderly account book event side n d v e

handle_event-IsOrderly :
    (account : OrderBook) (book : Book) (event : OutEvent) (n d : ℕ) {r : OrderBook × Book × Bool}
    → IsOrderly book
    → handle_event account book event n d ≡ ok r
    → IsOrderly r.1
unfolding handle_event
handle_event-IsOrderly account book event n d {r} v =
    elim (Bool-cases (event.kind == event_kind_residual)) [
      | inl h ↦ rw (h, handle_event) resumed
      | inr h ↦ rw (h, handle_event) kept
    ]
  where
    kept : {a : OrderBook} → ok (a, book, false) ≡ ok r → IsOrderly r.1
    kept e = subst (λ x. IsOrderly x.1) (ok-injective e) v

    resumed : resume_residual account book event n d ≡ ok r → IsOrderly r.1
    resumed e = resume_residual-IsOrderly account book event n d v e

drain_step-IsOrderly :
    (account : OrderBook) (book : Book) (dirty : Bool) (n d : ℕ) {r : OrderBook × Book × Bool}
    → IsOrderly book
    → drain_step account book dirty n d ≡ ok r
    → IsOrderly r.1
unfolding drain_step
drain_step-IsOrderly account book dirty n d v e =
    let (h, e1) =
      ok_or-checked_add u64_size account.event_read_cursor 1 FructusError.arithmetic_overflow _ e in
    let (handled, k, e2) =
      >>=-eq-ok
        (handle_event (record account { event_read_cursor = account.event_read_cursor + 1 }) book
          (event_at account account.event_read_cursor) n d)
        _ e1 in
    subst (λ x. IsOrderly x.1) (ok-injective e2)
      (handle_event-IsOrderly (record account { event_read_cursor = account.event_read_cursor + 1 })
        book (event_at account account.event_read_cursor) n d v k)

drain_rounds-IsOrderly :
    (rounds : ℕ) (account : OrderBook) (book : Book) (dirty : Bool) (n d : ℕ)
    {r : OrderBook × Book × Bool}
    → IsOrderly book
    → drain_rounds rounds account book dirty n d ≡ ok r
    → IsOrderly r.1
unfolding drain_rounds
drain_rounds-IsOrderly zero account book dirty n d v =
    λ e. subst (λ x. IsOrderly x.1) (ok-injective e) v
drain_rounds-IsOrderly (suc rounds) account book dirty n d {r} v =
    elim (Bool-cases (ltb account.event_read_cursor account.event_write_cursor)) [
      | inl h ↦
          rw (h, drain_rounds)
            (λ e.
              let (s, k, e1) = >>=-eq-ok (drain_step account book dirty n d) _ e in
              drain_rounds-IsOrderly rounds s.0 s.1 s.2 n d
                (drain_step-IsOrderly account book dirty n d v k) e1)
      | inr h ↦ rw (h, drain_rounds) (λ e. subst (λ x. IsOrderly x.1) (ok-injective e) v)
    ]

-- A batch that goes through leaves a well-formed book, residuals resumed or dropped.
pub drain_events-IsOrderly :
    (account : OrderBook) (book : Book) (n d : ℕ) {r : OrderBook × Book × Bool}
    → IsOrderly book
    → drain_events account book n d ≡ ok r
    → IsOrderly r.1
unfolding drain_events
drain_events-IsOrderly account book n d v e =
    drain_rounds-IsOrderly crank_batch_len account book false n d v e
