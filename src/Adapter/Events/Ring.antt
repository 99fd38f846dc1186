-- ===== src/Adapter/Events/Ring.antt =====
-- The ring of events: an append never overwrites an event that has not been drained, and the fills of one
-- match are appended all or not at all.
use fructus.Base.{
  ℕ, zero, suc, get_elem?, some, ◌+◌, ◌≤◌, ◌<◌, ◌≡◌, ◌≢◌, refl, sym, ap, subst, ◌∙◌, ◌⊎◌, inl, inr,
  Bool, true, false, List, [], ◌∷◌, arith, length, length-set, get_or-set_self, get_or-set_ne,
  u64_size, if◌then◌else◌,
}
use fructus.Errors.{Result, ok, err, Error, FructusError}
use mathlib.Core.Option.{some-injective}
use fructus.Constants.{event_queue_len, event_kind_fill}
use fructus.Adapter.Books.{side_to_u8, side_from_u8}
use fructus.State.{OrderBook, OutEvent, empty_event}
use fructus.Orderbook.{Side, Fill}
use fructus.Adapter.Events.{
  ring_index, event_at, queued, push_event, append_event, fill_event, emit_fill_events,
}

-- The cursors are at most a ring apart, and every event between them bears its sequence number.
pub record IsRing (account : OrderBook) : Type 0 where
  pub slots : length account.events ≡ event_queue_len
  pub ordered : account.event_read_cursor ≤ account.event_write_cursor
  pub bounded : account.event_write_cursor ≤ account.event_read_cursor + event_queue_len
  pub numbered :
      (i : ℕ)
      → account.event_read_cursor ≤ i
      → i < account.event_write_cursor
      → (event_at account i).seq ≡ i

ring_index_ne : (i w : ℕ) → i < w → w < i + event_queue_len → ring_index w ≢ ring_index i
ring_index_ne i w h k e = omega arith

pub ring_index-lt : (i : ℕ) → ring_index i < event_queue_len
ring_index-lt i = omega arith

-- What an append to a ring that is not full does.
pub record Appended (account : OrderBook) (event : OutEvent) (account' : OrderBook) : Type 0 where
  pub ring : IsRing account'
  pub advanced : account'.event_write_cursor ≡ account.event_write_cursor + 1
  pub same_read : account'.event_read_cursor ≡ account.event_read_cursor
  pub new_event :
      event_at account' account.event_write_cursor
      ≡ record event { seq = account.event_write_cursor; settled = 0 }
  pub old_events :
      (i : ℕ)
      → account.event_read_cursor ≤ i
      → i < account.event_write_cursor
      → event_at account' i ≡ event_at account i

push_event-new :
    (account : OrderBook) (event : OutEvent)
    → length account.events ≡ event_queue_len
    → event_at (push_event account event) account.event_write_cursor
      ≡ record event { seq = account.event_write_cursor; settled = 0 }
unfolding event_at push_event
push_event-new account event h =
    get_or-set_self account.events (ring_index account.event_write_cursor) _ empty_event
      (omega (arith, ring_index-lt account.event_write_cursor, h))

push_event-old :
    (account : OrderBook) (event : OutEvent) (i : ℕ)
    → i < account.event_write_cursor
    → account.event_write_cursor < i + event_queue_len
    → event_at (push_event account event) i ≡ event_at account i
unfolding event_at push_event
push_event-old account event i h k =
    get_or-set_ne account.events (ring_index account.event_write_cursor) (ring_index i) _
      empty_event (ring_index_ne i account.event_write_cursor h k)

push_event-cursor :
    (account : OrderBook) (event : OutEvent)
    → account.event_write_cursor + 1 < u64_size
    → (push_event account event).event_write_cursor ≡ account.event_write_cursor + 1
unfolding push_event
push_event-cursor account event h = omega arith

push_event-length :
    (account : OrderBook) (event : OutEvent)
    → length (push_event account event).events ≡ length account.events
unfolding push_event
push_event-length account event =
    length-set account.events (ring_index account.event_write_cursor) _

push_event-read :
    (account : OrderBook) (event : OutEvent)
    → (push_event account event).event_read_cursor ≡ account.event_read_cursor
unfolding push_event
push_event-read account event = refl

push_event-numbered :
    (account : OrderBook) (event : OutEvent) (i : ℕ)
    → IsRing account
    → account.event_write_cursor < account.event_read_cursor + event_queue_len
    → account.event_read_cursor ≤ i
    → i ≤ account.event_write_cursor
    → (event_at (push_event account event) i).seq ≡ i
push_event-numbered account event i v room h k = elim (split i account.event_write_cursor k) [
  | inl lt ↦ ap (λ e. e.seq) (push_event-old account event i lt (omega arith)) ∙ v.numbered i h lt
  | inr eq ↦ at_cursor i eq
]
  where
    split : (i w : ℕ) → i ≤ w → (i < w) ⊎ (i ≡ w)
    split i w k = grind arith

    at_cursor :
        (i : ℕ) → i ≡ account.event_write_cursor → (event_at (push_event account event) i).seq ≡ i
    at_cursor i eq =
        ap (λ x. (event_at (push_event account event) x).seq) eq
        ∙ ap (λ e. e.seq) (push_event-new account event v.slots)
        ∙ sym eq

push_event-Appended :
    (account : OrderBook) (event : OutEvent)
    → IsRing account
    → account.event_write_cursor + 1 < u64_size
    → account.event_write_cursor < account.event_read_cursor + event_queue_len
    → Appended account event (push_event account event)
push_event-Appended account event v h room =
    let c : (push_event account event).event_write_cursor ≡ account.event_write_cursor + 1 =
      push_event-cursor account event h in
    let r : (push_event account event).event_read_cursor ≡ account.event_read_cursor =
      push_event-read account event in
    record {
      ring = record {
        slots = push_event-length account event ∙ v.slots;
        ordered = omega (arith, c, r, v.ordered);
        bounded = omega (arith, c, r);
        numbered = λ i a b.
            push_event-numbered account event i v room (omega (arith, r, a)) (omega (arith, c, b));
      };
      advanced = c;
      same_read = r;
      new_event = push_event-new account event v.slots;
      old_events = λ i a b. push_event-old account event i b (omega arith);
    }

append_event-full :
    (account : OrderBook) (event : OutEvent)
    → queued account ≡ event_queue_len
    → append_event account event ≡ (false, account)
unfolding append_event
append_event-full account event h = ground arith

append_event-room :
    (account : OrderBook) (event : OutEvent)
    → queued account < event_queue_len
    → append_event account event ≡ (true, push_event account event)
unfolding append_event
append_event-room account event h = ground arith

queued_cases :
    (account : OrderBook)
    → IsRing account
    → (queued account ≡ event_queue_len)
      ⊎ ((queued account < event_queue_len)
          × (account.event_write_cursor < account.event_read_cursor + event_queue_len))
unfolding queued
queued_cases account v = grind (arith, v.bounded)

-- On a well-formed ring `append_event` refuses exactly where as many events are queued as the ring has
-- slots, and then changes nothing; otherwise the event stands at the write cursor under its number, and
-- every event that has not been drained is what it was.
pub append_event-Appended :
    (account : OrderBook) (event : OutEvent)
    → IsRing account
    → account.event_write_cursor + 1 < u64_size
    → ((queued account ≡ event_queue_len) × (append_event account event ≡ (false, account)))
      ⊎ ((queued account < event_queue_len)
          × ((append_event account event).0 ≡ true)
          × Appended account event (append_event account event).1)
append_event-Appended account event v h = elim (queued_cases account v) [
  | inl full ↦ inl (full, append_event-full account event full)
  | inr (few, room) ↦
      let e : append_event account event ≡ (true, push_event account event) =
        append_event-room account event few in
      inr (
        few,
        ap (λ x. x.0) e,
        subst (λ x. Appended account event x.1) (sym e)
            (push_event-Appended account event v h room),
      )
]

-- `k` events appended, with those that were queued kept.
pub record Extended (account : OrderBook) (k : ℕ) (account' : OrderBook) : Type 0 where
  pub ring : IsRing account'
  pub advanced : account'.event_write_cursor ≡ account.event_write_cursor + k
  pub same_read : account'.event_read_cursor ≡ account.event_read_cursor
  pub old_events :
      (i : ℕ)
      → account.event_read_cursor ≤ i
      → i < account.event_write_cursor
      → event_at account' i ≡ event_at account i

Extended-trans :
    (a : OrderBook) (event : OutEvent) (b c : OrderBook) (k : ℕ)
    → Appended a event b
    → Extended b k c
    → Extended a (suc k) c
Extended-trans a event b c k p q = record {
  ring = q.ring;
  advanced = omega (arith, p.advanced, q.advanced);
  same_read = q.same_read ∙ p.same_read;
  old_events = λ i h h1.
      q.old_events i (omega (arith, h, p.same_read)) (omega (arith, h1, p.advanced))
      ∙ p.old_events i h h1;
}

queued_le : (account : OrderBook) → IsRing account → queued account + 0 ≤ event_queue_len
unfolding queued
queued_le account v = omega (arith, v.bounded)

Extended-refl : (account : OrderBook) → IsRing account → Extended account 0 account
Extended-refl account v = record {
  ring = v;
  advanced = omega arith;
  same_read = refl;
  old_events = λ i a b. refl;
}

-- The event with number `seq` tells of the fill `f`: what the maker's position is to be booked with.
pub record Tells (maker_side : Side) (n d : ℕ) (f : Fill) (seq : ℕ) (event : OutEvent)
    : Type 0 where
  pub number : event.seq ≡ seq
  pub price : event.price ≡ f.price
  pub size : event.size ≡ f.size
  pub maker : event.owner ≡ f.maker_owner
  pub taker : event.counterparty ≡ f.taker_owner
  pub lamports : event.entry_total_lamports ≡ n
  pub supply : event.entry_pool_token_supply ≡ d
  pub pending : event.settled ≡ 0
  pub kind : event.kind ≡ event_kind_fill
  pub side : side_from_u8 event.side ≡ ok maker_side

-- The first `k` fills, in their order, from number `first` on.
abbrev pub Told : Side → ℕ → ℕ → List Fill → ℕ → ℕ → OrderBook → Type 0
Told side n d fs k first account =
    (i : ℕ) (f : Fill)
    → i < k
    → get_elem? fs i ≡ some f
    → Tells side n d f (first + i) (event_at account (first + i))

-- All the fills are on the ring, one event for each in their order, or it was too small, the error says so and
-- the first fills are on it; either way no queued event is lost.
abbrev pub Emitted : OrderBook → List Fill → Side → ℕ → ℕ → Result (Unit {0}) × OrderBook → Type 0
Emitted account fs side n d (result, account') =
    ((queued account + length fs ≤ event_queue_len)
      × (result ≡ ok tt)
      × Extended account (length fs) account'
      × Told side n d fs (length fs) account.event_write_cursor account')
    ⊎ ((event_queue_len < queued account + length fs)
        × (result ≡ err (Error.custom FructusError.book_full))
        × ((j : ℕ) × Extended account j account'
            × Told side n d fs j account.event_write_cursor account'))

queued-Appended :
    (a : OrderBook) (event : OutEvent) (b : OrderBook)
    → IsRing a
    → Appended a event b
    → queued b ≡ queued a + 1
unfolding queued
queued-Appended a event b v p = omega (arith, p.advanced, p.same_read, v.ordered)

side_to_u8-side_from_u8 : (side : Side) → side_from_u8 (side_to_u8 side) ≡ ok side
unfolding side_to_u8 side_from_u8
side_to_u8-side_from_u8 Side.bid = refl
side_to_u8-side_from_u8 Side.ask = refl

Tells-new :
    (side : Side) (n d : ℕ) (f : Fill) (seq : ℕ)
    → Tells side n d f seq (record (fill_event side n d f) { seq = seq; settled = 0 })
unfolding fill_event
Tells-new side n d f seq = record {
  number = refl;
  price = refl;
  size = refl;
  maker = refl;
  taker = refl;
  lamports = refl;
  supply = refl;
  pending = refl;
  kind = refl;
  side = side_to_u8-side_from_u8 side;
}

-- A fill appended, and the others behind it.
Told-after :
    (a : OrderBook) (side : Side) (n d : ℕ) (f : Fill) (fs : List Fill) (b c : OrderBook) (j k : ℕ)
    → IsRing a
    → Appended a (fill_event side n d f) b
    → Extended b j c
    → k ≤ j
    → Told side n d fs k b.event_write_cursor c
    → Told side n d (f ∷ fs) (suc k) a.event_write_cursor c
Told-after a side n d f fs b c j k v p x le told zero g h e =
    let same : f ≡ g = some-injective f g e in
    let first : event_at c a.event_write_cursor
        ≡ record (fill_event side n d f) { seq = a.event_write_cursor; settled = 0 } =
      x.old_events a.event_write_cursor (omega (arith, p.same_read, v.ordered))
        (omega (arith, p.advanced))
      ∙ p.new_event in
    subst (λ i. Tells side n d g i (event_at c i)) (omega arith)
      (subst (λ w. Tells side n d w a.event_write_cursor (event_at c a.event_write_cursor)) same
        (subst (Tells side n d f a.event_write_cursor) (sym first)
          (Tells-new side n d f a.event_write_cursor)))
Told-after a side n d f fs b c j k v p x le told (suc i) g h e =
    subst (λ m. Tells side n d g m (event_at c m)) (omega (arith, p.advanced))
      (told i g (omega arith) e)

Emitted-after :
    (a : OrderBook) (side : Side) (n d : ℕ) (f : Fill) (fs : List Fill) (b : OrderBook)
    (r : Result (Unit {0}) × OrderBook)
    → IsRing a
    → Appended a (fill_event side n d f) b
    → Emitted b fs side n d r
    → Emitted a (f ∷ fs) side n d r
Emitted-after a side n d f fs b (result, c) v p (inl (fits, e, x, told)) =
    let event : OutEvent = fill_event side n d f in
    inl (
      omega (arith, queued-Appended a event b v p, fits),
      e,
      Extended-trans a event b c (length fs) p x,
      Told-after a side n d f fs b c (length fs) (length fs) v p x (omega arith) told,
    )
Emitted-after a side n d f fs b (result, c) v p (inr (over, e, (j, x, told))) =
    let event : OutEvent = fill_event side n d f in
    inr (
      omega (arith, queued-Appended a event b v p, over),
      e,
      (
        suc j,
        Extended-trans a event b c j p x,
        Told-after a side n d f fs b c j j v p x (omega arith) told,
      ),
    )

-- On a well-formed ring `emit_fill_events` appends all the fills exactly where they fit, and fails with
-- `BookFull` otherwise. The events appended are the fills in their order, each with its number, price, size,
-- maker, taker, entry rate and the maker's side, waiting to be settled. The ring stays well-formed and no event
-- that was queued is overwritten, in either case.
pub emit_fill_events-Emitted :
    (account : OrderBook) (fs : List Fill) (side : Side) (n d : ℕ)
    → IsRing account
    → account.event_write_cursor + length fs < u64_size
    → Emitted account fs side n d (emit_fill_events account fs side n d)
unfolding emit_fill_events
emit_fill_events-Emitted account [] side n d v h =
    inl (queued_le account v, refl, Extended-refl account v, λ i f h e. elim h [ ])
emit_fill_events-Emitted account (f ∷ fs) side n d v h =
    let event : OutEvent = fill_event side n d f in
    elim (append_event-Appended account event v (omega arith)) [
      | inl (full, e) ↦
          subst (λ x. Emitted account (f ∷ fs) side n d (emit_after x)) (sym e)
            (inr (omega (arith, full), refl, (0, Extended-refl account v, λ i g h e2. elim h [ ])))
      | inr (room, e, p) ↦
          subst
            (λ t.
              Emitted account (f ∷ fs) side n d (emit_after (t, (append_event account event).1)))
            (sym e)
            (Emitted-after account side n d f fs (append_event account event).1
              (emit_fill_events (append_event account event).1 fs side n d) v p
              (emit_fill_events-Emitted (append_event account event).1 fs side n d p.ring
                (omega (arith, p.advanced, h))))
    ]
  where
    emit_after : Bool × OrderBook → Result (Unit {0}) × OrderBook
    emit_after (t, b) =
        if t then emit_fill_events b fs side n d else (err (Error.custom FructusError.book_full), b)
