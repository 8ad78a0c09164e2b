-- ===== src/ArbManager/Fill.antt =====
-- pt_arb_mgr_on_fill: a fill of one leg, and what is to be done about the other.
use polymarket_trade_engine.Prelude.{
  ℕ, Bool, true, not, ◌&&◌, ◌||◌, none, some, if◌then◌else◌, ltb, leb, ◌==◌, ℤ, negsuc, pos_part,
  add64, to_int64, ◌+ℤ◌, ◌*ℤ◌, set,
}
use polymarket_trade_engine.Double.{Double, whole}
use polymarket_trade_engine.Types.{price_scale}
use polymarket_trade_engine.Economics
use polymarket_trade_engine.Arb.{net_at}
use polymarket_trade_engine.ArbManager.{
  ArbState, Act, ArbOp, ArbManager, Action, Exposure, op_exposure, is_slot, no_act, op_at, cur_ask,
  cur_bid,
}

abbrev pub has_excess : Exposure → Bool
has_excess e = ltb 0 e.excess_yes || ltb 0 e.excess_no

module _ {F : Type 0} where
  -- The fill is booked on its leg.
  unfoldable pub book_fill : Bool → ℕ → ℤ → ℕ → ArbOp F → ArbOp F
  book_fill is_yes delta price now op =
      if is_yes
      then record op {
        yes_filled = add64 op.yes_filled delta;
        yes_notional = op.yes_notional +ℤ to_int64 delta *ℤ price;
        leg_a_fill_t = if op.leg_a_fill_t == 0 then now else op.leg_a_fill_t;
        last_update_t = now;
      }
      else record op {
        no_filled = add64 op.no_filled delta;
        no_notional = op.no_notional +ℤ to_int64 delta *ℤ price;
        last_update_t = now;
      }

  abbrev pub is_complete : ArbOp F → Bool
  is_complete op = leb op.target_size op.yes_filled && leb op.target_size op.no_filled

  abbrev pub leading_yes : ArbOp F → Bool
  leading_yes op = ltb op.no_filled op.yes_filled

  -- The excess of the leg that leads.
  abbrev pub hedge_size : ArbOp F → ℕ
  hedge_size op = let e = op_exposure op in if leading_yes op then e.excess_yes else e.excess_no

module _ {F : Type 0} ⦃d : Double F⦄ where
  abbrev taker_fee : ArbManager F → ℤ → ℕ → F
  taker_fee m price size = Economics.fee_usd (some m.arb_cfg.fees) true price size

  -- The profit of the two legs at their average prices.
  pub final_pnl : ArbManager F → ArbOp F → F
  final_pnl m op =
      let target = d.of_nat op.target_size in
      let ay = d.div (d.of_int op.yes_notional) target in
      let an = d.div (d.of_int op.no_notional) target in
      let fees =
        d.add (taker_fee m (d.to_int ay) op.target_size)
          (taker_fee m (d.to_int an) op.target_size) in
      d.sub (d.mul (d.sub (whole 1) (d.div (d.add ay an) (whole price_scale))) target) fees

  abbrev lag_ask : ArbManager F → ArbOp F → ℤ
  lag_ask m op = if leading_yes op then cur_ask m.no_book else cur_ask m.yes_book

  abbrev lead_bid : ArbManager F → ArbOp F → ℤ
  lead_bid m op = if leading_yes op then cur_bid m.yes_book else cur_bid m.no_book

  -- The edge of the target size on the present books, or -1 where it is not executable.
  pub net_now : ArbManager F → ArbOp F → F
  net_now m op =
      let eval = if ltb 1 op.target_size then op.target_size else 1 in
      elim (net_at m.yes_book m.no_book m.arb_cfg eval) [
        | none ↦ d.decimal (negsuc 0) 0
        | some n ↦ n.net_edge
      ]

  -- What it costs to fill the other leg at its present ask, against the price it was designed for.
  pub projected_loss : ArbManager F → ArbOp F → F
  projected_loss m op =
      let ask = lag_ask m op in
      let size = d.of_nat (hedge_size op) in
      let designed = d.of_int (if leading_yes op then op.no_limit else op.yes_limit) in
      let loss =
        d.add (d.div (d.mul size (d.sub (d.of_int ask) designed)) (whole price_scale))
          (taker_fee m ask (hedge_size op)) in
      if d.lt (whole 0) loss then loss else whole 0

  abbrev hedge_of : ArbManager F → ℤ → ArbOp F → Action F → ArbOp F × Action F
  hedge_of m i op a = (
    record op { state = ArbState.hedge_required },
    record a {
      action = Act.market_hedge;
      leg = if leading_yes op then 0 else 1;
      size = hedge_size op;
      price = lead_bid m op;
      op_index = i;
    },
  )

  abbrev submit_of : ArbManager F → ℤ → ArbOp F → Action F → ArbOp F × Action F
  submit_of m i op a = (
    record op { state = if leading_yes op then ArbState.leg_b_pending else ArbState.leg_a_pending },
    record a {
      action = Act.submit;
      leg = if leading_yes op then 1 else 0;
      size = hedge_size op;
      price = lag_ask m op;
      remaining_edge = net_now m op;
      op_index = i;
    },
  )

  -- One leg leads: sell its excess, or ask again for the other leg.
  unfoldable pub balance : ArbManager F → ℤ → ArbOp F → ArbOp F × Action F
  balance m i op =
      let loss = projected_loss m op in
      let over = d.le m.cfg.max_loss_per_trade loss in
      let a = record no_act {
        projected_loss = loss;
        max_loss_allowed = m.cfg.max_loss_per_trade;
        over_risk = over;
      } in
      if over
      then hedge_of m i op a
      else if d.lt m.arb_cfg.min_edge_pct (net_now m op) && m.cfg.allow_requote
      then submit_of m i op a
      else hedge_of m i op a

  -- The operation once the fill is booked.
  unfoldable pub react : ArbManager F → ℤ → ArbOp F → ArbOp F × Action F
  react m i op =
      if is_complete op
      then (
        record op { state = ArbState.both_filled; realized_pnl = final_pnl m op },
        record no_act { action = Act.complete; op_index = i; realized_pnl = final_pnl m op },
      )
      else if has_excess (op_exposure op)
      then balance m i op
      else (
        record op { state = ArbState.leg_a_partial },
        record no_act { remaining_edge = net_now m op; op_index = i },
      )

  unfoldable pub on_fill : ArbManager F → ℤ → Bool → ℕ → ℤ → ℕ → ArbManager F × Action F
  on_fill m i is_yes delta price now =
      let op = op_at m (pos_part i) in
      let (op', a) = react m i (book_fill is_yes delta price now op) in
      if not (is_slot i)
      then (m, no_act)
      else if op.arb_id == 0
      then (m, no_act)
      else (record m { ops = set m.ops (pos_part i) op' }, a)
