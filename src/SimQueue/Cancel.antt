-- ===== src/SimQueue/Cancel.antt =====
-- What becomes of a cancel request.
use polymarket_trade_engine.Prelude.{
  ℕ, ◌≤◌, ◌<◌, ◌≡◌, refl, Bool, true, false, not, ◌&&◌, Option, none, some, List, [], ◌∷◌, All, ℤ,
  word, arith,
}
use polymarket_trade_engine.Types.{Side}
use polymarket_trade_engine.Double.{Double}
use polymarket_trade_engine.Book.{Book}
use polymarket_trade_engine.Order.{Order, OrderState, is_cancellable, is_immediate}
use polymarket_trade_engine.SimQueue.{Config, cancel_order}
use polymarket_trade_engine.SimQueue.Trade.{trade_order, reached, consume, rest_fill, arrive}
use polymarket_trade_engine.SimQueue.Tick.{tick_order, against, arrive_noted, swept, book_of}
use polymarket_trade_engine.SimQueue.Inv.{IsOrder}
use polymarket_trade_engine.SimQueue.Match.{share_of, reaches}

-- The time and the books that a tick is given.
pub record Tick : Type 0 where
  pub now : ℕ
  pub yes_book : Option Book
  pub no_book : Option Book

module _ {F : Type 0} ⦃d : Double F⦄ where
  unfoldable pub after_ticks : Config F → List Tick → Order F → Order F
  after_ticks cfg [] o = o
  after_ticks cfg (t ∷ ts) o =
      after_ticks cfg ts (tick_order cfg o.market_id t.yes_book t.no_book t.now o).0

  -- The order's book, if there is one, has nothing for it: it rests, and the best price on the other side
  -- is not beyond its limit.
  abbrev pub spares : Option Book → Order F → Bool
  spares none o = true
  spares (some b) o =
      not (is_immediate o.type) && elim (swept o.side o.price b) [ none ↦ true | some l ↦ false ]

  -- A tick before the acknowledgement that leaves the order alone.
  abbrev pub IsQuiet : Order F → Tick → Type 0
  IsQuiet o t = (t.now < o.cancel_ack_t) × (spares (book_of t.yes_book t.no_book o) o ≡ true)

  against-spares :
      (cfg : Config F) (now : ℕ) (b : Option Book) (o : Order F)
      → spares b o ≡ true
      → against cfg now b o ≡ (o, none)
  unfolding against
  against-spares cfg now none o h = refl
  against-spares cfg now (some b) o h = ground arith

  tick_order-quiet :
      (cfg : Config F) (t : Tick) (o : Order F)
      → o.state ≡ OrderState.pending_cancel
      → IsQuiet o t
      → tick_order cfg o.market_id t.yes_book t.no_book t.now o ≡ (o, none)
  unfolding tick_order arrive_noted
  tick_order-quiet cfg t o e q =
      ground (arith, against-spares cfg t.now (book_of t.yes_book t.no_book o) o)

  after_ticks-quiet :
      (cfg : Config F) (ts : List Tick) (o : Order F)
      → o.state ≡ OrderState.pending_cancel
      → All (IsQuiet o) ts
      → after_ticks cfg ts o ≡ o
  unfolding after_ticks
  after_ticks-quiet cfg [] o e q = refl
  after_ticks-quiet cfg (t ∷ ts) o e q =
      rw (tick_order-quiet cfg t o e q.0) (after_ticks-quiet cfg ts o e q.1)

  tick_order-acknowledged :
      (cfg : Config F) (t : Tick) (o : Order F)
      → o.state ≡ OrderState.pending_cancel
      → o.cancel_ack_t ≤ t.now
      → tick_order cfg o.market_id t.yes_book t.no_book t.now o
        ≡ (record o { state = OrderState.cancelled; last_update_t = t.now }, none)
  unfolding tick_order arrive_noted
  tick_order-acknowledged cfg t o e h = ground arith

  tick_order-cancelled :
      (cfg : Config F) (t : Tick) (o : Order F)
      → o.state ≡ OrderState.cancelled
      → tick_order cfg o.market_id t.yes_book t.no_book t.now o ≡ (o, none)
  unfolding tick_order arrive_noted
  tick_order-cancelled cfg t o e = ground arith

  -- A cancelled order that meets no trade waits through the earlier ticks of its market that find nothing
  -- for it, and the first one at or after the acknowledgement takes it off, whatever the books hold:
  -- it ends as cancelled, nothing more of it is filled, and every later tick leaves it so.
  pub tick-cancel :
      (cfg : Config F) (requested : ℕ) (earlier : List Tick) (t later : Tick) (o : Order F)
      → is_cancellable o.state ≡ true
      → All (IsQuiet (cancel_order cfg requested o)) earlier
      → (cancel_order cfg requested o).cancel_ack_t ≤ t.now
      → let waiting = after_ticks cfg earlier (cancel_order cfg requested o) in
        let r = tick_order cfg o.market_id t.yes_book t.no_book t.now waiting in
        (waiting.state ≡ OrderState.pending_cancel)
        × (r.0.state ≡ OrderState.cancelled)
        × (r.1 ≡ none)
        × (r.0.filled_size ≡ o.filled_size)
        × (r.0.remaining_size ≡ o.remaining_size)
        × (tick_order cfg o.market_id later.yes_book later.no_book later.now r.0 ≡ (r.0, none))
  tick-cancel cfg requested earlier t later o c q h =
      let w = cancel_order cfg requested o in
      let gone = record w { state = OrderState.cancelled; last_update_t = t.now } in
      rw (after_ticks-quiet cfg earlier w refl q, tick_order-acknowledged cfg t w refl h)
        (refl, refl, refl, refl, refl, tick_order-cancelled cfg later gone refl)

  consume_part :
      (cfg : Config F) (trade_size now : ℕ) (o : Order F)
      → trade_size < word
      → IsOrder o
      → 0 < share_of trade_size o
      → share_of trade_size o < o.remaining_size
      → (consume cfg trade_size now o).0.state ≡ OrderState.partial
  unfolding consume rest_fill
  consume_part cfg trade_size now o h v p q = ground arith

  trade_part :
      (cfg : Config F) (is_yes trade_price : ℤ) (trade_size : ℕ) (trade_side : Side) (now : ℕ)
      (o : Order F)
      → trade_size < word
      → IsOrder o
      → o.state ≡ OrderState.pending_cancel
      → reaches o.market_id is_yes trade_price trade_side now o ≡ true
      → 0 < share_of trade_size o
      → share_of trade_size o < o.remaining_size
      → (trade_order cfg o.market_id is_yes trade_price trade_size trade_side now o).0.state
        ≡ OrderState.partial
  unfolding trade_order arrive reached
  trade_part cfg is_yes trade_price trade_size trade_side now o h v e r p q =
      ground (arith, consume_part cfg trade_size now o h v p q)

  tick_part :
      (cfg : Config F) (market_id later : ℕ) (o : Order F)
      → o.state ≡ OrderState.partial
      → (tick_order cfg market_id none none later o).0.state ≡ OrderState.partial
  unfolding tick_order arrive_noted against
  tick_part cfg market_id later o e = ground arith

  -- A trade that fills part of an order whose cancellation is pending puts it back to PARTIAL: the
  -- request is lost, and no later tick without a book to trade against takes the order off, however
  -- long after the acknowledgement time.
  pub tick-trade_loses_cancel :
      (cfg : Config F) (is_yes trade_price : ℤ) (trade_size : ℕ) (trade_side : Side) (now later : ℕ)
      (o : Order F)
      → trade_size < word
      → IsOrder o
      → o.state ≡ OrderState.pending_cancel
      → reaches o.market_id is_yes trade_price trade_side now o ≡ true
      → 0 < share_of trade_size o
      → share_of trade_size o < o.remaining_size
      → let o' = (trade_order cfg o.market_id is_yes trade_price trade_size trade_side now o).0 in
        (o'.state ≡ OrderState.partial)
        × ((tick_order cfg o.market_id none none later o').0.state ≡ OrderState.partial)
  tick-trade_loses_cancel cfg is_yes trade_price trade_size trade_side now later o h v e r p q =
      let part = trade_part cfg is_yes trade_price trade_size trade_side now o h v e r p q in
      (part, tick_part cfg o.market_id later _ part)
