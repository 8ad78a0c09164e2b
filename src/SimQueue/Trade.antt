-- ===== src/SimQueue/Trade.antt =====
-- `pt_sim_queue_on_trade`: a trade consumes the queue ahead of an order, then the order itself.
use polymarket_trade_engine.Prelude.{
  ℕ, ◌/◌, Bool, not, ◌&&◌, ◌||◌, Option, none, some, List, [], ◌∷◌, ltb, leb, ◌==◌, if◌then◌else◌,
  ℤ, ◌+ℤ◌, ◌*ℤ◌, leb_ℤ, eqb_ℤ, add64, sub64, to_int64, to_uint64,
}
use polymarket_trade_engine.Types.{Side, is_bid, is_ask, price_scale}
use polymarket_trade_engine.Double.{Double, whole}
use polymarket_trade_engine.Order.{Order, OrderState, is_pending_submit, is_working}
use polymarket_trade_engine.SimQueue.{SimQueue, Config, Fill}

-- `cum_cost_scaled / filled_size` divides unsigned words, and is cast back.
abbrev average_price : ℤ → ℕ → ℤ
average_price cost filled = to_int64 (to_uint64 cost / filled)

abbrev pub smaller : ℕ → ℕ → ℕ
smaller a b = if ltb a b then a else b

module _ {F : Type 0} where
  -- An order whose arrival time has come rests on the book.
  unfoldable pub arrive : ℕ → Order F → Order F
  arrive now o =
      if is_pending_submit o.state && leb o.arrival_t now
      then record o { state = OrderState.live }
      else o

  -- Whether a trade on this side at this price reaches the order.
  abbrev pub interacts : Order F → Side → ℤ → Bool
  interacts o trade_side trade_price =
      if is_bid o.side
      then is_ask trade_side && leb_ℤ trade_price o.price
        || not (is_bid trade_side) && leb_ℤ trade_price o.price
      else is_bid trade_side && leb_ℤ o.price trade_price
        || not (is_ask trade_side) && leb_ℤ o.price trade_price

module _ {F : Type 0} ⦃d : Double F⦄ where
  -- What a fill of `qty` shares at `price` does to the sums of an order.
  abbrev pub add_fill : ℕ → ℕ → ℤ → Order F → Order F
  add_fill now qty price o =
      let cost = o.cum_cost_scaled +ℤ to_int64 qty *ℤ price in
      let total = add64 o.filled_size qty in
      record o {
        filled_size = total;
        remaining_size = sub64 o.remaining_size qty;
        cum_cost_scaled = cost;
        avg_fill_price = average_price cost total;
        last_update_t = now;
      }

  -- `adv` of an order, and its share of one fill.
  abbrev adverse_of : Config F → Order F → F
  adverse_of cfg o = d.mul (d.of_int o.price) (d.div cfg.adverse_selection_bps (whole 10000))

  abbrev pub after_fill : ℕ → ℕ → F → Order F → Order F
  after_fill now qty adv o = record o {
    adverse_selection =
        d.add o.adverse_selection (d.div (d.mul adv (d.of_nat qty)) (whole price_scale));
    fill_ratio =
        if ltb 0 o.original_size
        then d.div (d.of_nat o.filled_size) (d.of_nat o.original_size)
        else o.fill_ratio;
    time_to_fill_ns = if leb o.submit_t now then sub64 now o.submit_t else o.time_to_fill_ns;
    state = if o.remaining_size == 0 then OrderState.filled else OrderState.partial;
  }

  -- A fill of a resting order, and its callback.
  unfoldable pub rest_fill : Config F → ℕ → ℕ → ℤ → Order F → Order F × Option (Fill F)
  rest_fill cfg now qty price o =
      let adv = adverse_of cfg o in
      let o' = after_fill now qty adv (add_fill now qty price o) in
      (o', some (record { order = o'; qty = qty; price = price; adverse = adv }))

  unfoldable pub consume : Config F → ℕ → ℕ → Order F → Order F × Option (Fill F)
  consume cfg trade_size now o =
      if leb trade_size o.queue_ahead
      then (
        record o {
          queue_ahead = sub64 o.queue_ahead trade_size;
          consumed_volume = add64 o.consumed_volume trade_size;
        },
        none,
      )
      else let o' = record o {
        consumed_volume = add64 o.consumed_volume o.queue_ahead;
        queue_ahead = 0;
      } in
        let qty = smaller (sub64 trade_size o.queue_ahead) o.remaining_size in
        if ltb 0 qty then rest_fill cfg now qty o.price o' else (o', none)

  abbrev pub note_queue : Order F × Option (Fill F) → Order F × Option (Fill F)
  note_queue (o, f) = (record o { queue_ahead_after_updates = o.queue_ahead }, f)

  -- What a trade does to an order of its market that is on the book by now.
  unfoldable pub reached : Config F → ℤ → ℕ → Side → ℕ → Order F → Order F × Option (Fill F)
  reached cfg trade_price trade_size trade_side now o =
      if not (is_working o.state) || ltb now o.arrival_t || not (interacts o trade_side trade_price)
      then (o, none)
      else note_queue (consume cfg trade_size now o)

  -- The body of the loop of `on_trade`, for one slot.
  unfoldable pub trade_order :
      Config F → ℕ → ℤ → ℤ → ℕ → Side → ℕ → Order F → Order F × Option (Fill F)
  trade_order cfg market_id is_yes trade_price trade_size trade_side now o =
      if not (o.market_id == market_id) || not (eqb_ℤ o.is_yes is_yes)
      then (o, none)
      else reached cfg trade_price trade_size trade_side now (arrive now o)

  abbrev pub add_event : Option (Fill F) → List (Fill F) → List (Fill F)
  add_event none fs = fs
  add_event (some f) fs = f ∷ fs

  -- A loop over the slots, with the fills in the order in which the callback is called.
  unfoldable pub each_slot :
      (Order F → Order F × Option (Fill F)) → List (Order F) → List (Order F) × List (Fill F)
  each_slot step [] = ([], [])
  each_slot step (o ∷ os) =
      let (o', f) = step o in let (os', fs) = each_slot step os in (o' ∷ os', add_event f fs)

  unfoldable pub over_slots :
      SimQueue F → (Order F → Order F × Option (Fill F)) → SimQueue F × List (Fill F)
  over_slots sq step =
      let (orders, fills) = each_slot step sq.orders in (record sq { orders = orders }, fills)

  unfoldable pub on_trade : SimQueue F → ℕ → ℤ → ℤ → ℕ → Side → ℕ → SimQueue F × List (Fill F)
  on_trade sq market_id is_yes trade_price trade_size trade_side now =
      if trade_size == 0
      then (sq, [])
      else over_slots sq (trade_order sq.cfg market_id is_yes trade_price trade_size trade_side now)
