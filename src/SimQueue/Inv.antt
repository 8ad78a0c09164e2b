-- ===== src/SimQueue/Inv.antt =====
-- The invariant of an order in the pool, and that every operation of the queue keeps it.
use polymarket_trade_engine.Prelude.{
  ℕ, ◌+◌, ◌≤◌, ◌<◌, ◌≡◌, inl, inr, Option-cases, Option, none, some, if◌then◌else◌, length, All, ℤ,
  pos, ltb_ℤ, ◌-ℤ◌, word, arith,
}
use polymarket_trade_engine.Types.{Side}
use polymarket_trade_engine.Double.{Double}
use polymarket_trade_engine.Book.{Book, Level, walk}
use polymarket_trade_engine.Book.Fill.{walk_filled}
use polymarket_trade_engine.Order.{Order, OrderState, zero_order}
use polymarket_trade_engine.SimQueue.{SimQueue, Config, QueueModel, max_orders}
use polymarket_trade_engine.SimQueue.Trade.{trade_order, reached, rest_fill, arrive, consume}
use polymarket_trade_engine.SimQueue.Depth.{level_order, reduced, reduce, share}
use polymarket_trade_engine.SimQueue.Tick.{
  tick_order, immediate, sweep, sweep_size, against, arrive_noted, opposite, swept, book_of,
}

-- A filled order has nothing left, and an order on its way or on the book has something left.
abbrev Fits : OrderState → ℕ → Type 0
Fits OrderState.filled left = left ≡ 0
Fits OrderState.pending_submit left = 0 < left
Fits OrderState.live left = 0 < left
Fits OrderState.partial left = 0 < left
Fits OrderState.pending_cancel left = 0 < left
Fits _ left = Unit {0}

module _ {F : Type 0} where
  -- No share is lost or made up, neither of the order nor of the queue ahead of it.
  pub record IsOrder (o : Order F) : Type 0 where
    pub shares : o.filled_size + o.remaining_size ≡ o.original_size
    pub shares_fit : o.original_size < word
    pub ahead : o.queue_ahead + o.consumed_volume + o.cancel_volume ≡ o.initial_queue
    pub ahead_fits : o.initial_queue < word
    pub left : Fits o.state o.remaining_size

  pub record IsPool (sq : SimQueue F) : Type 0 where
    pub orders : All IsOrder sq.orders
    pub slots : length sq.orders ≡ max_orders

module _ {F : Type 0} ⦃d : Double F⦄ where
  pub zero_order-IsOrder : IsOrder (zero_order {F = F})
  zero_order-IsOrder = record {
    shares = omega arith;
    shares_fit = omega arith;
    ahead = omega arith;
    ahead_fits = omega arith;
    left = tt;
  }

  rest_fill-IsOrder :
      (cfg : Config F) (now qty : ℕ) (price : ℤ) (o : Order F)
      → qty ≤ o.remaining_size
      → IsOrder o
      → IsOrder (rest_fill cfg now qty price o).0
  unfolding rest_fill
  rest_fill-IsOrder cfg now qty price o h v = ground arith

  pub arrive-IsOrder : (now : ℕ) (o : Order F) → IsOrder o → IsOrder (arrive now o)
  unfolding arrive
  arrive-IsOrder now o v = ground arith

  consume-IsOrder :
      (cfg : Config F) (trade_size now : ℕ) (o : Order F)
      → trade_size < word
      → IsOrder o
      → IsOrder (consume cfg trade_size now o).0
  unfolding consume rest_fill
  consume-IsOrder cfg trade_size now o h v = ground arith

  reached-IsOrder :
      (cfg : Config F) (trade_price : ℤ) (trade_size : ℕ) (trade_side : Side) (now : ℕ)
      (o : Order F)
      → trade_size < word
      → IsOrder o
      → IsOrder (reached cfg trade_price trade_size trade_side now o).0
  unfolding reached
  reached-IsOrder cfg trade_price trade_size trade_side now o h v =
      ground (arith, consume-IsOrder cfg trade_size now o h v)

  pub trade_order-IsOrder :
      (cfg : Config F) (market_id : ℕ) (is_yes trade_price : ℤ) (trade_size : ℕ) (trade_side : Side)
      (now : ℕ) (o : Order F)
      → trade_size < word
      → IsOrder o
      → IsOrder (trade_order cfg market_id is_yes trade_price trade_size trade_side now o).0
  unfolding trade_order
  trade_order-IsOrder cfg market_id is_yes trade_price trade_size trade_side now o h v = ground (
    arith,
    reached-IsOrder cfg trade_price trade_size trade_side now (arrive now o) h
        (arrive-IsOrder now o v),
  )

  reduce-IsOrder :
      (model : QueueModel) (reduction old_size : ℤ) (o : Order F)
      → IsOrder o
      → IsOrder (reduce model reduction old_size o)
  unfolding reduce share
  reduce-IsOrder QueueModel.conservative reduction old_size o v = v
  reduce-IsOrder QueueModel.aggressive reduction old_size o v = ground arith
  reduce-IsOrder QueueModel.realistic reduction old_size o v = ground arith
  reduce-IsOrder QueueModel.unset reduction old_size o v = ground arith

  reduced-IsOrder :
      (cfg : Config F) (reduction old_size : ℤ) (now : ℕ) (o : Order F)
      → IsOrder o
      → IsOrder (reduced cfg reduction old_size now o)
  unfolding reduced
  reduced-IsOrder cfg reduction old_size now o v =
      ground (arith, reduce-IsOrder cfg.queue_model reduction old_size o v)

  pub level_order-IsOrder :
      (cfg : Config F) (market_id : ℕ) (is_yes : ℤ) (side : Side) (price old_size new_size : ℤ)
      (now : ℕ) (o : Order F)
      → IsOrder o
      → IsOrder (level_order cfg market_id is_yes side price old_size new_size now o).0
  unfolding level_order
  level_order-IsOrder cfg market_id is_yes side price old_size new_size now o v = ground (
    arith,
    reduced-IsOrder cfg (old_size -ℤ new_size) old_size now (arrive now o) (arrive-IsOrder now o v),
  )

  -- A walk gives an order no more than it has left.
  walk-le :
      (b : Book) (side : Side) (o : Order F)
      → IsOrder o
      → (walk b side o.remaining_size).0 ≤ o.remaining_size
  walk-le b side o v = omega (arith, (walk_filled b side o.remaining_size (omega arith)).0)

  immediate-IsOrder : (now : ℕ) (b : Book) (o : Order F) → IsOrder o → IsOrder (immediate now b o).0
  unfolding immediate
  immediate-IsOrder now b o v = ground (arith, walk-le b (opposite o.side) o v)

  sweep_size-le :
      (can_fill best_size : ℕ) (o : Order F)
      → can_fill ≤ o.remaining_size
      → sweep_size can_fill best_size o ≤ o.remaining_size
  sweep_size-le can_fill best_size o h = ground arith

  sweep-IsOrder :
      (cfg : Config F) (now : ℕ) (b : Book) (best : Level) (o : Order F)
      → IsOrder o
      → IsOrder (sweep cfg now b best o).0
  unfolding sweep
  sweep-IsOrder cfg now b best o v =
      let (can_fill, avg, used) = walk b (opposite o.side) o.remaining_size in
      let qty = sweep_size can_fill best.size o in
      ground (
        arith,
        rest_fill-IsOrder cfg now qty (if ltb_ℤ (pos 0) avg then avg else o.price) o
            (sweep_size-le can_fill best.size o (walk-le b (opposite o.side) o v)) v,
      )

  against-IsOrder :
      (cfg : Config F) (now : ℕ) (book : Option Book) (o : Order F)
      → IsOrder o
      → IsOrder (against cfg now book o).0
  unfolding against
  against-IsOrder cfg now none o v = v
  against-IsOrder cfg now (some b) o v = elim (Option-cases (swept o.side o.price b)) [
    | inl e ↦ rw e (ground (arith, immediate-IsOrder now b o v))
    | inr (best, e) ↦
        rw e (ground (arith, immediate-IsOrder now b o v, sweep-IsOrder cfg now b best o v))
  ]

  arrive_noted-IsOrder : (now : ℕ) (o : Order F) → IsOrder o → IsOrder (arrive_noted now o)
  unfolding arrive_noted
  arrive_noted-IsOrder now o v = ground arith

  pub tick_order-IsOrder :
      (cfg : Config F) (market_id : ℕ) (yes_book no_book : Option Book) (now : ℕ) (o : Order F)
      → IsOrder o
      → IsOrder (tick_order cfg market_id yes_book no_book now o).0
  unfolding tick_order
  tick_order-IsOrder cfg market_id yes_book no_book now o v =
      let o' = arrive_noted now o in
      ground (
        arith,
        arrive_noted-IsOrder now o v,
        against-IsOrder cfg now (book_of yes_book no_book o') o' (arrive_noted-IsOrder now o v),
      )
