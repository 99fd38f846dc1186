-- ===== src/Adapter/Events/Writes.antt =====
-- What is ever written on the ring: events appended at the write cursor, and pending fills marked settled. Where
-- a fill has been settled, none of it makes it pending again.
use fructus.Base.{
  ℕ, ◌+◌, ◌<◌, ◌≡◌, ◌≢◌, refl, sym, ap, subst, ◌∙◌, inl, inr, none, some, List, arith, ◌==◌, set,
  get_or, length, length-set, get_or-set_self, get_or-set_ne, Bool-cases, u64_size, wrapping_add,
}
use fructus.Errors.{ok}
use fructus.Constants.{event_queue_len}
use fructus.State.{OrderBook, OutEvent, empty_event}
use fructus.Adapter.Events.Ring.{ring_index-lt}
use fructus.Adapter.Events.{ring_index, event_at, settle_event}

-- `k` events are appended from one account to the other, each at the write cursor and under its number, and
-- fills that were pending are marked settled; nothing else is written on the ring.
pub data Writes : ℕ → OrderBook → OrderBook → Type 0 where
  kept :
      (k : ℕ) (a b : OrderBook)
      → k ≡ 0
      → b.events ≡ a.events
      → b.event_write_cursor ≡ a.event_write_cursor
      → Writes k a b
  appended :
      (k : ℕ) (a b : OrderBook) (event : OutEvent)
      → k ≡ 1
      → b.events
        ≡ set a.events
            (ring_index a.event_write_cursor)
            (record event { seq = a.event_write_cursor; settled = 0 })
      → b.event_write_cursor ≡ wrapping_add u64_size a.event_write_cursor 1
      → Writes k a b
  marked :
      (k : ℕ) (a b : OrderBook) (seq : ℕ) (event : OutEvent)
      → k ≡ 0
      → settle_event a seq ≡ ok (some event)
      → b.events ≡ set a.events (ring_index seq) (record event { settled = 1 })
      → b.event_write_cursor ≡ a.event_write_cursor
      → Writes k a b
  both : (j k n : ℕ) (a b c : OrderBook) → n ≡ j + k → Writes j a b → Writes k b c → Writes n a c

-- The fill with this number is not pending: its slot holds it settled, or another event.
pub record Booked (seq : ℕ) (a : OrderBook) : Type 0 where
  pub slots : length a.events ≡ event_queue_len
  pub behind : seq < a.event_write_cursor
  pub done : (event_at a seq).seq ≡ seq → (event_at a seq).settled ≢ 0

event_of : List OutEvent → ℕ → OutEvent
event_of events seq = get_or events (ring_index seq) empty_event

-- A slot written, unless with a pending event of that number, keeps the fill booked.
set-done :
    (events : List OutEvent) (slot seq : ℕ) (event : OutEvent)
    → length events ≡ event_queue_len
    → (event.seq ≡ seq → event.settled ≢ 0)
    → ((event_of events seq).seq ≡ seq → (event_of events seq).settled ≢ 0)
    → (event_of (set events (ring_index slot) event) seq).seq ≡ seq
    → (event_of (set events (ring_index slot) event) seq).settled ≢ 0
unfolding event_of
set-done events slot seq event slots fresh old =
    elim (Bool-cases (ring_index slot == ring_index seq)) [
      | inl t ↦
          let same : ring_index slot ≡ ring_index seq = ground arith in
          let at : get_or (set events (ring_index slot) event) (ring_index seq) empty_event
              ≡ event =
            subst (λ i. get_or (set events (ring_index slot) event) i empty_event ≡ event) same
              (get_or-set_self events (ring_index slot) event empty_event
                (omega (arith, ring_index-lt slot, slots))) in
          subst (λ e. e.seq ≡ seq → e.settled ≢ 0) (sym at) fresh
      | inr t ↦
          let apart : ring_index slot ≢ ring_index seq = λ same. ground arith in
          subst (λ e. e.seq ≡ seq → e.settled ≢ 0)
            (sym (get_or-set_ne events (ring_index slot) (ring_index seq) event empty_event apart))
            old
    ]

-- A settled fill stays settled, as long as the numbers of the events do not start again at 0.
pub Writes-Booked :
    (seq : ℕ) {k : ℕ} {a b : OrderBook}
    → Writes k a b
    → a.event_write_cursor + k < u64_size
    → Booked seq a
    → Booked seq b × (b.event_write_cursor ≡ a.event_write_cursor + k)
unfolding event_at event_of
Writes-Booked seq (kept k a b none_new same cursor) h v = (
  record {
    slots = ap length same ∙ v.slots;
    behind = omega (arith, cursor, v.behind);
    done =
        subst (λ es. (event_of es seq).seq ≡ seq → (event_of es seq).settled ≢ 0) (sym same) v.done;
  },
  omega (arith, cursor, none_new),
)
Writes-Booked seq (appended k a b event one written cursor) h v =
    let next : b.event_write_cursor ≡ a.event_write_cursor + 1 = omega (arith, cursor, one, h) in
    (
      record {
        slots =
            ap length written ∙ length-set a.events (ring_index a.event_write_cursor) _ ∙ v.slots;
        behind = omega (arith, next, v.behind);
        done =
            subst (λ es. (event_of es seq).seq ≡ seq → (event_of es seq).settled ≢ 0) (sym written)
              (set-done a.events a.event_write_cursor seq
                (record event { seq = a.event_write_cursor; settled = 0 }) v.slots
                (λ same settled. omega (arith, same, v.behind)) v.done);
      },
      omega (arith, next, one),
    )
Writes-Booked seq (marked k a b number event none_new pending written cursor) h v = (
  record {
    slots = ap length written ∙ length-set a.events (ring_index number) _ ∙ v.slots;
    behind = omega (arith, cursor, v.behind);
    done =
        subst (λ es. (event_of es seq).seq ≡ seq → (event_of es seq).settled ≢ 0) (sym written)
          (set-done a.events number seq (record event { settled = 1 }) v.slots
            (λ same settled. omega (arith, settled)) v.done);
  },
  omega (arith, cursor, none_new),
)
Writes-Booked seq (both j k n a b c total first second) h v =
    let (v1, e1) = Writes-Booked seq first (omega (arith, total, h)) v in
    let (v2, e2) = Writes-Booked seq second (omega (arith, total, e1, h)) v1 in
    (v2, omega (arith, e1, e2, total))

-- What is settled is not handed out again.
pub Booked-settle_event :
    (a : OrderBook) (seq : ℕ) {event : OutEvent}
    → Booked seq a
    → settle_event a seq ≢ ok (some event)
unfolding settle_event
Booked-settle_event a seq v e = ground (arith, v.done)

-- After a call that finds it settled already, it is.
pub settle_event-Booked :
    (a : OrderBook) (seq : ℕ)
    → length a.events ≡ event_queue_len
    → seq < a.event_write_cursor
    → settle_event a seq ≡ ok none
    → Booked seq a
unfolding settle_event
settle_event-Booked a seq slots behind e = record {
  slots = slots;
  behind = behind;
  done = λ same pending. ground arith;
}

-- Some number of events appended.
abbrev pub Written : OrderBook → OrderBook → Type 0
Written a b = (k : ℕ) × Writes k a b

pub Written-refl : (a : OrderBook) → Written a a
Written-refl a = (0, kept 0 a a refl refl refl)

pub Written-trans : (a b c : OrderBook) → Written a b → Written b c → Written a c
Written-trans a b c (j, w) (k, w1) = (j + k, both j k (j + k) a b c refl w w1)
