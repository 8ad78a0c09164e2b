-- ===== src/SimQueue/Tick.antt =====
-- `pt_sim_queue_tick`: arrivals, cancel acknowledgements, immediate orders and sweeps of the book.
use polymarket_trade_engine.Prelude.{
  ℕ, not, ◌&&◌, ◌||◌, Option, none, some, List, ltb, leb, ◌==◌, if◌then◌else◌, ℤ, pos, ltb_ℤ, eqb_ℤ,
}
use polymarket_trade_engine.Types.{Side, is_bid}
use polymarket_trade_engine.Double.{Double, whole}
use polymarket_trade_engine.Book.{Level, Book, walk, best_bid, best_ask}
use polymarket_trade_engine.Order.{
  Order, OrderState, is_pending_submit, is_pending_cancel, is_working, is_immediate,
}
use polymarket_trade_engine.SimQueue.{SimQueue, Config, Fill}
use polymarket_trade_engine.SimQueue.Trade.{rest_fill, add_fill, over_slots, smaller}

abbrev pub opposite : Side → Side
opposite side = if is_bid side then Side.ask else Side.bid

-- The best price on the other side of the book, if the order's limit lies beyond it.
abbrev pub swept : Side → ℤ → Book → Option Level
swept side price b =
    if is_bid side
    then elim (best_ask b) [ none ↦ none | some l ↦ if ltb_ℤ l.price price then some l else none ]
    else elim (best_bid b) [ none ↦ none | some l ↦ if ltb_ℤ price l.price then some l else none ]

module _ {F : Type 0} ⦃d : Double F⦄ where
  -- An order whose arrival time has come rests on the book.
  unfoldable pub arrive_noted : ℕ → Order F → Order F
  arrive_noted now o =
      if is_pending_submit o.state && leb o.arrival_t now
      then record o { state = OrderState.live; last_update_t = now }
      else o

  abbrev pub finish : Order F → Order F
  finish o = record o {
    state = if o.remaining_size == 0 then OrderState.filled else OrderState.cancelled;
  }

  -- A market or IOC order takes what it can at once; the rest is cancelled.
  unfoldable pub immediate : ℕ → Book → Order F → Order F × Option (Fill F)
  immediate now b o =
      let (can_fill, avg, used) = walk b (opposite o.side) o.remaining_size in
      if ltb 0 can_fill
      then (let o' = add_fill now can_fill avg o in
          (finish o', some (record { order = o'; qty = can_fill; price = avg; adverse = whole 0 })))
      else (finish o, none)

  abbrev pub sweep_size : ℕ → ℕ → Order F → ℕ
  sweep_size can_fill best_size o =
      if ltb 0 can_fill
      then can_fill
      else if o.queue_ahead == 0
      then smaller best_size o.remaining_size
      else 0

  -- A resting order whose limit the book has passed.
  unfoldable pub sweep : Config F → ℕ → Book → Level → Order F → Order F × Option (Fill F)
  sweep cfg now b best o =
      let (can_fill, avg, used) = walk b (opposite o.side) o.remaining_size in
      let qty = sweep_size can_fill best.size o in
      if ltb 0 qty
      then rest_fill cfg now qty (if ltb_ℤ (pos 0) avg then avg else o.price) o
      else (o, none)

  abbrev pub book_of : Option Book → Option Book → Order F → Option Book
  book_of yes_book no_book o = if eqb_ℤ o.is_yes (pos 0) then no_book else yes_book

  -- What an order that has arrived does against its book.
  unfoldable pub against : Config F → ℕ → Option Book → Order F → Order F × Option (Fill F)
  against cfg now none o = (o, none)
  against cfg now (some b) o =
      if is_immediate o.type
      then immediate now b o
      else elim (swept o.side o.price b) [ none ↦ (o, none) | some best ↦ sweep cfg now b best o ]

  -- The body of the loop, for one slot.
  unfoldable pub tick_order :
      Config F → ℕ → Option Book → Option Book → ℕ → Order F → Order F × Option (Fill F)
  tick_order cfg market_id yes_book no_book now o =
      if not (o.market_id == market_id)
      then (o, none)
      else let o' = arrive_noted now o in
        if is_pending_cancel o'.state && leb o'.cancel_ack_t now
        then (record o' { state = OrderState.cancelled; last_update_t = now }, none)
        else if not (is_working o'.state) || ltb now o'.arrival_t
        then (o', none)
        else against cfg now (book_of yes_book no_book o') o'

  unfoldable pub tick : SimQueue F → ℕ → Option Book → Option Book → ℕ → SimQueue F × List (Fill F)
  tick sq market_id yes_book no_book now =
      over_slots sq (tick_order sq.cfg market_id yes_book no_book now)
