-- ===== src/SimQueue/Depth.antt =====
-- `pt_sim_queue_on_level_change`: shares cancelled at a level may have stood ahead of an order.
use polymarket_trade_engine.Prelude.{
  ℕ, not, ◌&&◌, ◌||◌, none, Option, ltb, leb, ◌==◌, if◌then◌else◌, ℤ, pos, ◌-ℤ◌, leb_ℤ, ltb_ℤ,
  eqb_ℤ, add64, sub64, to_uint64,
}
use polymarket_trade_engine.Types.{Side, same_side}
use polymarket_trade_engine.Double.{Double}
use polymarket_trade_engine.Order.{Order, is_working}
use polymarket_trade_engine.SimQueue.{SimQueue, Config, Fill, QueueModel}
use polymarket_trade_engine.SimQueue.Trade.{arrive, over_slots}

module _ {F : Type 0} ⦃d : Double F⦄ where
  -- `reduced` shares fewer stand ahead.
  abbrev drop_ahead : ℕ → Order F → Order F
  drop_ahead reduced o = record o {
    cancel_volume = add64 o.cancel_volume reduced;
    queue_ahead = sub64 o.queue_ahead reduced;
  }

  -- The order's proportional part of the reduction, at most what stands ahead.
  unfoldable pub share : ℤ → ℤ → Order F → ℕ
  share reduction old_size o =
      let part = d.to_nat (
        d.round
          (d.mul (d.of_int reduction) (d.div (d.of_nat o.queue_ahead) (d.of_int old_size)))) in
      if ltb o.queue_ahead part then o.queue_ahead else part

  unfoldable pub reduce : QueueModel → ℤ → ℤ → Order F → Order F
  reduce QueueModel.conservative reduction old_size o = o
  reduce QueueModel.aggressive reduction old_size o =
      if leb o.queue_ahead (to_uint64 reduction)
      then record o { cancel_volume = add64 o.cancel_volume o.queue_ahead; queue_ahead = 0 }
      else drop_ahead (to_uint64 reduction) o
  reduce _ reduction old_size o =
      if ltb_ℤ (pos 0) old_size && ltb 0 o.queue_ahead
      then drop_ahead (share reduction old_size o) o
      else o

  -- The conservative model goes on to the next slot before this note.
  abbrev note_ahead : QueueModel → Order F → Order F
  note_ahead QueueModel.conservative o = o
  note_ahead _ o = record o { queue_ahead_after_updates = o.queue_ahead }

  -- What the reduction does to an order of that level that is on the book by now.
  unfoldable pub reduced : Config F → ℤ → ℤ → ℕ → Order F → Order F
  reduced cfg reduction old_size now o =
      if not (is_working o.state) || ltb now o.arrival_t
      then o
      else note_ahead cfg.queue_model (reduce cfg.queue_model reduction old_size o)

  -- The body of the loop, for one slot. There is no fill.
  unfoldable pub level_order :
      Config F → ℕ → ℤ → Side → ℤ → ℤ → ℤ → ℕ → Order F → Order F × Option (Fill F)
  level_order cfg market_id is_yes side price old_size new_size now o =
      if not (o.market_id == market_id)
        || (not (eqb_ℤ o.is_yes is_yes)
            || (not (same_side o.side side) || not (eqb_ℤ o.price price)))
      then (o, none)
      else (reduced cfg (old_size -ℤ new_size) old_size now (arrive now o), none)

  unfoldable pub on_level_change : SimQueue F → ℕ → ℤ → Side → ℤ → ℤ → ℤ → ℕ → SimQueue F
  on_level_change sq market_id is_yes side price old_size new_size now =
      if leb_ℤ old_size new_size
      then sq
      else (over_slots sq (level_order sq.cfg market_id is_yes side price old_size new_size now)).0
