-- ===== src/Handlers/Lifecycle/Once.antt =====
-- A `settle_fill` leaves the event of its number settled, and what is settled is not booked.
use fructus.Base.{
  ℕ, ◌<◌, refl, length-set, ◌≡◌, sym, ap, subst, ◌∙◌, Option, none, some, [], ◌∷◌, arith, length,
  get_or-set_self,
}
use fructus.Errors.{ok, >>=-eq-ok}
use fructus.Errors.Steps.{ok-injective}
use fructus.Constants.{event_queue_len, event_kind_fill}
use fructus.State.{OrderBook, OutEvent, PerpMarket, empty_event}
use fructus.Adapter.Events.{ring_index, event_at, settle_event}
use fructus.Adapter.Events.Writes.{Booked, Booked-settle_event, settle_event-Booked}
use fructus.Adapter.Fills.{apply_open_fills}
use fructus.Handlers.Runtime.{Runtime, create_or_load, existing_ledger, verify_maker_accounts}
use fructus.Handlers.Lifecycle.{Trading, fill_of, mark_settled, settle_pending, settle_fill}

settle_event-some :
    (account : OrderBook) (seq : ℕ) {event : OutEvent}
    → settle_event account seq ≡ ok (some event)
    → (event.seq ≡ seq) × (event.kind ≡ event_kind_fill) × (event.settled ≡ 0)
unfolding settle_event
settle_event-some account seq e = ground arith

settle_event-settled :
    (account : OrderBook) (seq : ℕ)
    → (event_at account seq).seq ≡ seq
    → (event_at account seq).kind ≡ event_kind_fill
    → (event_at account seq).settled ≡ 1
    → settle_event account seq ≡ ok none
unfolding settle_event
settle_event-settled account seq h h1 h2 = ground arith

event_at-mark_settled :
    (account : OrderBook) (seq : ℕ) (event : OutEvent)
    → length account.events ≡ event_queue_len
    → event_at (mark_settled account seq event) seq ≡ record event { settled = 1 }
unfolding event_at mark_settled
event_at-mark_settled account seq event h =
    get_or-set_self account.events (ring_index seq) _ empty_event (omega (arith, h))

settle_event-mark_settled :
    (account : OrderBook) (seq : ℕ) (event : OutEvent)
    → length account.events ≡ event_queue_len
    → settle_event account seq ≡ ok (some event)
    → settle_event (mark_settled account seq event) seq ≡ ok none
settle_event-mark_settled account seq event h e =
    let (h1, h2, h3) = settle_event-some account seq e in
    let at = event_at-mark_settled account seq event h in
    settle_event-settled (mark_settled account seq event) seq (ap (λ x. x.seq) at ∙ h1)
      (ap (λ x. x.kind) at ∙ h2) (ap (λ x. x.settled) at)

pub settle_pending-book :
    (rt : Runtime) (market : PerpMarket) (market_key : ℕ) (t : Trading)
    (position_key collateral_key now_slot seq : ℕ) (event : OutEvent) {t' : Trading}
    → settle_pending rt market market_key t position_key collateral_key now_slot seq event ≡ ok t'
    → t'.order_book ≡ mark_settled t.order_book seq event
unfolding settle_pending
settle_pending-book rt market market_key t position_key collateral_key now_slot seq event e =
    let (bump, h, e1) =
      >>=-eq-ok (verify_maker_accounts rt market_key event position_key collateral_key) _ e in
    let (ledger, h1, e2) = >>=-eq-ok (existing_ledger t.user_collateral) _ e1 in
    let (position, h2, e3) = >>=-eq-ok (create_or_load t.position) _ e2 in
    let (applied, h3, e4) =
      >>=-eq-ok
        (apply_open_fills
          (record position {
            bump = bump;
            market = market_key;
            owner = event.owner;
            side = event.side;
          })
          ledger market.initial_margin_bps (fill_of event ∷ []) event.entry_total_lamports
          event.entry_pool_token_supply now_slot market.funding_epoch_slots)
        _ e3 in
    ap (λ x. x.order_book) (sym (ok-injective e4))

settle_fill-settled :
    (rt : Runtime) (market : PerpMarket) (market_key : ℕ) (t : Trading)
    (position_key collateral_key now_slot seq : ℕ) {t' : Trading}
    → length t.order_book.events ≡ event_queue_len
    → settle_fill rt market market_key t position_key collateral_key now_slot seq ≡ ok t'
    → settle_event t'.order_book seq ≡ ok none
unfolding settle_fill
settle_fill-settled rt market market_key t position_key collateral_key now_slot seq {t'} slots e =
    let (found, h, e1) = >>=-eq-ok (settle_event t.order_book seq) _ e in by_found found h e1
  where
    by_found :
        (found : Option OutEvent)
        → settle_event t.order_book seq ≡ ok found
        → elim found [
          | none ↦ ok t
          | some event ↦
              settle_pending rt market market_key t position_key collateral_key now_slot seq event
        ]
          ≡ ok t'
        → settle_event t'.order_book seq ≡ ok none
    by_found none h e = subst (λ x. settle_event x.order_book seq ≡ ok none) (ok-injective e) h
    by_found (some event) h e =
        subst (λ x. settle_event x seq ≡ ok none)
          (sym (
            settle_pending-book rt market market_key t position_key collateral_key now_slot seq
              event e))
          (settle_event-mark_settled t.order_book seq event slots h)

settle_fill-cursor :
    (rt : Runtime) (market : PerpMarket) (market_key : ℕ) (t : Trading)
    (position_key collateral_key now_slot seq : ℕ) {t' : Trading}
    → settle_fill rt market market_key t position_key collateral_key now_slot seq ≡ ok t'
    → (t'.order_book.event_write_cursor ≡ t.order_book.event_write_cursor)
      × (length t'.order_book.events ≡ length t.order_book.events)
unfolding settle_fill mark_settled
settle_fill-cursor rt market market_key t position_key collateral_key now_slot seq {t'} e =
    let (found, h, e1) = >>=-eq-ok (settle_event t.order_book seq) _ e in by_found found e1
  where
    Same : OrderBook → Type 0
    Same book =
        (book.event_write_cursor ≡ t.order_book.event_write_cursor)
        × (length book.events ≡ length t.order_book.events)

    by_found :
        (found : Option OutEvent)
        → elim found [
          | none ↦ ok t
          | some event ↦
              settle_pending rt market market_key t position_key collateral_key now_slot seq event
        ]
          ≡ ok t'
        → Same t'.order_book
    by_found none e = subst (λ x. Same x.order_book) (ok-injective e) (refl, refl)
    by_found (some event) e =
        subst Same
          (sym (
            settle_pending-book rt market market_key t position_key collateral_key now_slot seq
              event e))
          (refl, length-set t.order_book.events (ring_index seq) (record event { settled = 1 }))

-- What is booked after a `settle_fill` that went through.
pub settle_fill-Booked :
    (rt : Runtime) (market : PerpMarket) (market_key : ℕ) (t : Trading)
    (position_key collateral_key now_slot seq : ℕ) {t' : Trading}
    → length t.order_book.events ≡ event_queue_len
    → seq < t.order_book.event_write_cursor
    → settle_fill rt market market_key t position_key collateral_key now_slot seq ≡ ok t'
    → Booked seq t'.order_book
settle_fill-Booked rt market market_key t position_key collateral_key now_slot seq {t'} slots behind
      e =
    let (cursor, same) =
      settle_fill-cursor rt market market_key t position_key collateral_key now_slot seq e in
    settle_event-Booked t'.order_book seq (same ∙ slots) (omega (arith, cursor, behind))
      (settle_fill-settled rt market market_key t position_key collateral_key now_slot seq slots e)

-- A `settle_fill` of what is booked changes nothing.
pub Booked-settle_fill :
    (rt : Runtime) (market : PerpMarket) (market_key : ℕ) (t : Trading)
    (position_key collateral_key now_slot seq : ℕ) {t' : Trading}
    → Booked seq t.order_book
    → settle_fill rt market market_key t position_key collateral_key now_slot seq ≡ ok t'
    → t' ≡ t
unfolding settle_fill
Booked-settle_fill rt market market_key t position_key collateral_key now_slot seq {t'} v e =
    let (found, h, e1) = >>=-eq-ok (settle_event t.order_book seq) _ e in by_found found h e1
  where
    by_found :
        (found : Option OutEvent)
        → settle_event t.order_book seq ≡ ok found
        → elim found [
          | none ↦ ok t
          | some event ↦
              settle_pending rt market market_key t position_key collateral_key now_slot seq event
        ]
          ≡ ok t'
        → t' ≡ t
    by_found none h e = sym (ok-injective e)
    by_found (some event) h e = elim (Booked-settle_event t.order_book seq v h) [ ]
