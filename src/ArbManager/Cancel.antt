-- ===== src/ArbManager/Cancel.antt =====
-- pt_arb_mgr_on_cancel and pt_arb_mgr_tick: a leg was cancelled, or stands unhedged for too long.
use polymarket_trade_engine.Prelude.{
  ℕ, suc, Bool, not, ◌&&◌, ◌||◌, Option, none, some, List, [], ◌∷◌, if◌then◌else◌, ltb, leb, ◌==◌,
  ℤ, pos, pos_part, sub64, set,
}
use polymarket_trade_engine.Double.{Double, whole}
use polymarket_trade_engine.ArbManager.{
  ArbState, Act, ArbOp, ArbManager, Action, Exposure, op_exposure, is_slot, is_done, no_act, op_at,
  cur_bid,
}

module _ {F : Type 0} ⦃d : Double F⦄ where
  -- The excess of a leg is sold at the present bid.
  abbrev pub dump : ArbManager F → ℤ → Exposure → Action F
  dump m i e =
      if ltb 0 e.excess_yes
      then record no_act {
        action = Act.market_hedge;
        leg = 0;
        size = e.excess_yes;
        price = cur_bid m.yes_book;
        op_index = i;
      }
      else record no_act {
        action = Act.market_hedge;
        leg = 1;
        size = e.excess_no;
        price = cur_bid m.no_book;
        op_index = i;
      }

  unfoldable pub cancel_op : ArbManager F → ℤ → ArbOp F → ArbOp F × Action F
  cancel_op m i op =
      let e = op_exposure op in
      if op.yes_filled == 0 && op.no_filled == 0
      then (
        record op { state = ArbState.cancelled },
        record no_act { action = Act.abort; op_index = i },
      )
      else if ltb 0 e.excess_yes || ltb 0 e.excess_no
      then (record op { state = ArbState.hedge_required }, dump m i e)
      else (record op { state = ArbState.cancelled }, record no_act { op_index = i })

  -- The leg and the time that the code is given are not read.
  unfoldable pub on_cancel : ArbManager F → ℤ → ArbManager F × Action F
  on_cancel m i =
      let (op', a) = cancel_op m i (op_at m (pos_part i)) in
      if not (is_slot i) then (m, no_act) else (record m { ops = set m.ops (pos_part i) op' }, a)

  unfoldable pub unhedged_ns : ArbManager F → ℕ
  unhedged_ns m = d.to_nat (d.mul m.cfg.max_unhedged_time_ms (whole 1_000_000))

  -- Whether the tick hedges the operation.
  unfoldable pub is_overdue : ArbManager F → ℕ → ArbOp F → Bool
  is_overdue m now op =
      let e = op_exposure op in
      not (is_done op.state)
      && ((ltb 0 e.excess_yes || ltb 0 e.excess_no) && ltb 0 op.leg_a_fill_t)
      && leb (unhedged_ns m) (sub64 now op.leg_a_fill_t)

  unfoldable pub tick_op : ArbManager F → ℕ → ℕ → ArbOp F → ArbOp F × Option (Action F)
  tick_op m now i op =
      if is_overdue m now op
      then (
        record op { state = ArbState.hedge_required; last_update_t = now },
        some (dump m (pos i) (op_exposure op)),
      )
      else (op, none)

  -- The loop over the array from index `i` on.
  unfoldable pub tick_ops : ArbManager F → ℕ → ℕ → List (ArbOp F) → List (ArbOp F) × List (Action F)
  tick_ops m now i [] = ([], [])
  tick_ops m now i (op ∷ ops) =
      let (op', a) = tick_op m now i op in
      let (ops', acts) = tick_ops m now (suc i) ops in
      (op' ∷ ops', elim a [ none ↦ acts | some x ↦ x ∷ acts ])

  -- `*num_acts` is the length of the list of actions.
  unfoldable pub tick : ArbManager F → ℕ → ArbManager F × List (Action F)
  tick m now = let (ops', acts) = tick_ops m now 0 m.ops in (record m { ops = ops' }, acts)
