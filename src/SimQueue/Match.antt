-- ===== src/SimQueue/Match.antt =====
-- What a trade and a sweep do to one order.
use polymarket_trade_engine.Prelude.{
  ℕ, ◌+◌, ◌-◌, ◌<◌, min, ◌≡◌, refl, Bool, true, false, ◌&&◌, ◌||◌, Bool-cases, inl, inr, Option,
  none, some, if◌then◌else◌, ltb, leb, ◌==◌, ℤ, pos, ltb_ℤ, eqb_ℤ, word, sub64, arith,
}
use polymarket_trade_engine.Types.{Side}
use polymarket_trade_engine.Double.{Double}
use polymarket_trade_engine.Book.{Book, Level, walk, from_best}
use polymarket_trade_engine.Book.Fill.{walk_filled, total}
use polymarket_trade_engine.Order.{Order, OrderState, is_working, is_pending_submit}
use polymarket_trade_engine.SimQueue.{Config, Fill}
use polymarket_trade_engine.SimQueue.Trade.{
  trade_order, reached, consume, rest_fill, arrive, interacts, smaller,
}
use polymarket_trade_engine.SimQueue.Tick.{sweep, opposite}
use polymarket_trade_engine.SimQueue.Inv.{IsOrder, arrive-IsOrder}

-- Whether a trade in this market, at this price and time, reaches the order.
abbrev pub reaches : {F : Type 0} → ℕ → ℤ → ℤ → Side → ℕ → Order F → Bool
reaches market_id is_yes trade_price trade_side now o =
    (o.market_id == market_id && eqb_ℤ o.is_yes is_yes)
    && ((is_working o.state || is_pending_submit o.state)
        && (leb o.arrival_t now && interacts o trade_side trade_price))

-- The shares of a trade that are left for the order once the queue ahead is served.
abbrev pub share_of : {F : Type 0} → ℕ → Order F → ℕ
share_of trade_size o = min (trade_size - o.queue_ahead) o.remaining_size

abbrev pub qty_of : {F : Type 0} → Option (Fill F) → ℕ
qty_of none = 0
qty_of (some f) = f.qty

abbrev pub PricedAt : {F : Type 0} → ℤ → Option (Fill F) → Type 0
PricedAt price none = Unit {0}
PricedAt price (some f) = f.price ≡ price

module _ {F : Type 0} where
  -- What a trade of this size does to an order and to its callback.
  pub record Served (trade_size : ℕ) (o : Order F) (r : Order F × Option (Fill F)) : Type 0 where
    pub ahead : r.0.queue_ahead ≡ o.queue_ahead - trade_size
    pub consumed : r.0.consumed_volume ≡ o.consumed_volume + min trade_size o.queue_ahead
    pub filled : r.0.filled_size ≡ o.filled_size + share_of trade_size o
    pub remaining : r.0.remaining_size ≡ o.remaining_size - share_of trade_size o
    pub reported : qty_of r.1 ≡ share_of trade_size o
    pub priced : PricedAt o.price r.1

module _ {F : Type 0} ⦃d : Double F⦄ where
  consume-Served :
      (cfg : Config F) (trade_size now : ℕ) (o : Order F)
      → trade_size < word
      → IsOrder o
      → Served trade_size o (consume cfg trade_size now o)
  unfolding consume rest_fill
  consume-Served cfg trade_size now o h v = elim (Bool-cases (leb trade_size o.queue_ahead)) [
    | inl covered ↦ rw covered (ground arith)
    | inr over ↦
        elim (Bool-cases (ltb 0 (smaller (sub64 trade_size o.queue_ahead) o.remaining_size))) [
          | inl some_left ↦ rw (over, some_left) (ground arith)
          | inr none_left ↦ rw (over, none_left) (ground arith)
        ]
  ]

  reached-Served :
      (cfg : Config F) (trade_price : ℤ) (trade_size : ℕ) (trade_side : Side) (now : ℕ)
      (o : Order F)
      → trade_size < word
      → IsOrder o
      → (is_working o.state && (leb o.arrival_t now && interacts o trade_side trade_price)) ≡ true
      → Served trade_size o (reached cfg trade_price trade_size trade_side now o)
  unfolding reached
  reached-Served cfg trade_price trade_size trade_side now o h v e =
      ground (arith, consume-Served cfg trade_size now o h v)

  Served-arrive :
      (trade_size now : ℕ) (o : Order F) (r : Order F × Option (Fill F))
      → Served trade_size (arrive now o) r
      → Served trade_size o r
  unfolding arrive
  Served-arrive trade_size now o r v = ground arith

  -- An order on the book at `now`, by its state and arrival time.
  arrive-reaches :
      (trade_price : ℤ) (trade_side : Side) (now : ℕ) (o : Order F)
      → ((is_working o.state || is_pending_submit o.state)
          && (leb o.arrival_t now && interacts o trade_side trade_price))
        ≡ (let a = arrive now o in
            is_working a.state && (leb a.arrival_t now && interacts a trade_side trade_price))
  unfolding arrive
  arrive-reaches trade_price trade_side now o = by_state o.state refl
    where
      by_state :
          (st : OrderState)
          → o.state ≡ st
          → ((is_working o.state || is_pending_submit o.state)
              && (leb o.arrival_t now && interacts o trade_side trade_price))
            ≡ (let a = arrive now o in
                is_working a.state && (leb a.arrival_t now && interacts a trade_side trade_price))
      by_state OrderState.pending_submit e = rw e (elim (Bool-cases (leb o.arrival_t now)) [
        | inl there ↦ rw there (ground arith)
        | inr away ↦ rw away (ground arith)
      ])
      by_state OrderState.created e = rw e refl
      by_state _ e = rw e refl

  reached_missed :
      (cfg : Config F) (trade_price : ℤ) (trade_size : ℕ) (trade_side : Side) (now : ℕ)
      (o : Order F)
      → (is_working o.state && (leb o.arrival_t now && interacts o trade_side trade_price)) ≡ false
      → reached cfg trade_price trade_size trade_side now o ≡ (o, none)
  unfolding reached
  reached_missed cfg trade_price trade_size trade_side now o e = ground arith

  arrive_sizes :
      (now : ℕ) (o : Order F)
      → ((arrive now o).filled_size ≡ o.filled_size)
        × ((arrive now o).remaining_size ≡ o.remaining_size)
        × ((arrive now o).queue_ahead ≡ o.queue_ahead)
  unfolding arrive
  arrive_sizes now o = ground arith

  -- A trade that reaches an order first serves the queue ahead of it. What is then left of the trade
  -- fills the order, up to what it has left, at the order's own price, and the callback reports just
  -- that; the queue, the volume consumed and the order's sizes move by these amounts.
  pub trade_order-Served :
      (cfg : Config F) (market_id : ℕ) (is_yes trade_price : ℤ) (trade_size : ℕ) (trade_side : Side)
      (now : ℕ) (o : Order F)
      → trade_size < word
      → IsOrder o
      → reaches market_id is_yes trade_price trade_side now o ≡ true
      → Served trade_size o
          (trade_order cfg market_id is_yes trade_price trade_size trade_side now o)
  unfolding trade_order
  trade_order-Served cfg market_id is_yes trade_price trade_size trade_side now o h v e = ground (
    arith,
    Served-arrive trade_size now o
        (reached cfg trade_price trade_size trade_side now (arrive now o)),
    reached-Served cfg trade_price trade_size trade_side now (arrive now o) h
        (arrive-IsOrder now o v),
    arrive-reaches trade_price trade_side now o,
  )

  -- A trade that does not reach an order fills nothing of it and moves none of its sizes.
  trade_order_missed :
      (cfg : Config F) (market_id : ℕ) (is_yes trade_price : ℤ) (trade_size : ℕ) (trade_side : Side)
      (now : ℕ) (o : Order F)
      → reaches market_id is_yes trade_price trade_side now o ≡ false
      → let r = trade_order cfg market_id is_yes trade_price trade_size trade_side now o in
        (r.1 ≡ none)
        × (r.0.filled_size ≡ o.filled_size)
        × (r.0.remaining_size ≡ o.remaining_size)
        × (r.0.queue_ahead ≡ o.queue_ahead)
  unfolding trade_order
  trade_order_missed cfg market_id is_yes trade_price trade_size trade_side now o e = ground (
    arith,
    arrive_sizes now o,
    reached_missed cfg trade_price trade_size trade_side now (arrive now o),
    arrive-reaches trade_price trade_side now o,
  )

  -- A sweep takes whatever the other side of the book holds, up to what the order has left, at the
  -- walk's average price: its size does not depend on the order's limit.
  pub sweep_takes_all :
      (cfg : Config F) (now : ℕ) (b : Book) (best : Level) (o : Order F)
      → IsOrder o
      → 0 < min o.remaining_size (total (from_best b (opposite o.side)))
      → let r = sweep cfg now b best o in
        let qty = min o.remaining_size (total (from_best b (opposite o.side))) in
        let avg = (walk b (opposite o.side) o.remaining_size).1 in
        (qty_of r.1 ≡ qty)
        × PricedAt (if ltb_ℤ (pos 0) avg then avg else o.price) r.1
        × (r.0.filled_size ≡ o.filled_size + qty)
        × (r.0.remaining_size ≡ o.remaining_size - qty)
  unfolding sweep rest_fill
  sweep_takes_all cfg now b best o v some_left =
      ground (arith, walk_filled b (opposite o.side) o.remaining_size)
