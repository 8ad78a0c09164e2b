-- ===== src/ArbManager/Tests.antt =====
-- A manager with one running operation, and the theorems there.
use mathlib.Core.List.{Memᴰ}
use polymarket_trade_engine.Prelude.{
  ℕ, ◌≤◌, ◌≡◌, refl, true, false, some, none, ◌∷◌, replicate, All, arith, pos,
}
use polymarket_trade_engine.Micro.{Micro, micro_double}
use polymarket_trade_engine.Economics.{fee_schedule_default}
use polymarket_trade_engine.Arb.{Opportunity}
use polymarket_trade_engine.Arb.Calc.{zero_opportunity}
use polymarket_trade_engine.Arb
use polymarket_trade_engine.ArbManager.{
  ArbState, Act, ArbOp, ArbManager, Action, init, zero_op, no_act, op_at, open_op, cur_bid,
}
use polymarket_trade_engine.ArbManager.Open.{IsOpened, open_op_lem}
use polymarket_trade_engine.ArbManager.Fill.{on_fill}
use polymarket_trade_engine.ArbManager.Cancel.{on_cancel, cancel_op, tick, tick_op, unhedged_ns}
use polymarket_trade_engine.ArbManager.Hedge.{
  IsAnswer, IsFillAnswer, IsCancelAnswer, on_fill_lem, on_cancel_lem,
}
use polymarket_trade_engine.ArbManager.Timeout.{tick_hedges, tick-no_leg_untimed}

abbrev parity : Arb.Config Micro
parity = record {
  fees = fee_schedule_default;
  slippage_bps = pos 0;
  latency_buffer_pct = pos 0;
  risk_buffer_pct = pos 0;
  min_edge_pct = pos 20_000;
  min_liquidity = 5;
  max_unhedged_loss = pos 10_000_000;
}

abbrev opportunity : Opportunity Micro
opportunity = record zero_opportunity {
  has_opportunity = true;
  max_executable_size = 20;
  avg_yes_scaled = pos 450;
  avg_no_scaled = pos 480;
}

-- 20 shares are wanted on each leg; 12 of YES are filled, since 1 s.
abbrev running : ArbOp Micro
running = record zero_op {
  arb_id = 1;
  state = ArbState.leg_a_partial;
  target_size = 20;
  yes_limit = pos 450;
  no_limit = pos 480;
  yes_filled = 12;
  yes_notional = pos 5_400;
  leg_a_fill_t = 1_000_000_000;
}

-- The same before any fill.
abbrev begun : ArbOp Micro
begun = record running { yes_filled = 0; yes_notional = pos 0; leg_a_fill_t = 0 }

abbrev manager : ArbManager Micro
manager = record (init (some parity) none none none) {
  ops = running ∷ replicate 63 zero_op;
  next_arb_id = 2;
}

abbrev before_fill : ArbManager Micro
before_fill = record manager { ops = begun ∷ replicate 63 zero_op }

hedges_the_excess :
    let a = (on_cancel manager (pos 0)).1 in (a.action ≡ Act.market_hedge) × (a.size ≡ 12)
unfolding on_cancel cancel_op init
hedges_the_excess = (refl, refl)

open_op_lem_example :
    let r = open_op manager opportunity 77 5 in IsOpened manager opportunity 77 5 0 r.0 r.1
unfolding init
open_op_lem_example = open_op_lem manager opportunity 77 5 0

on_fill_lem_example :
    let r = on_fill manager (pos 0) false 8 (pos 480) 2_000_000_000 in
    let op = op_at r.0 0 in
    (op.yes_filled ≡ 12) × (op.no_filled ≡ 8) × (op.target_size ≡ 20) × IsFillAnswer op r.1
unfolding init
on_fill_lem_example =
    on_fill_lem manager (pos 0) false 8 (pos 480) 2_000_000_000 refl refl refl (omega arith)
      (omega arith)

on_cancel_lem_example :
    let r = on_cancel manager (pos 0) in
    let op = op_at r.0 0 in (op.yes_filled ≡ 12) × (op.no_filled ≡ 0) × IsCancelAnswer op r.1
unfolding init
on_cancel_lem_example = on_cancel_lem manager (pos 0) refl refl (omega arith) (omega arith)

tick_hedges_example :
    (a : Action Micro) × Memᴰ a (tick manager 2_000_000_000).1
    × (a.action ≡ Act.market_hedge)
    × (a.op_index ≡ pos 0)
    × IsAnswer (op_at (tick manager 2_000_000_000).0 0) a
unfolding init unhedged_ns
tick_hedges_example =
    tick_hedges manager 2_000_000_000 0 (omega arith) refl (omega arith) (omega arith) (omega arith)
      (omega arith) (omega arith) (λ e. omega arith)

abbrev first_hedge : Action Micro
first_hedge = record no_act {
  action = Act.market_hedge;
  size = 12;
  price = cur_bid manager.yes_book;
  op_index = pos 0;
}

filled_at_once : All (λ (op : ArbOp Micro). op.leg_a_fill_t ≤ 2_000_000_000) manager.ops
filled_at_once = (omega arith, zeros 63)
  where
    zeros :
        (n : ℕ) → All (λ (op : ArbOp Micro). op.leg_a_fill_t ≤ 2_000_000_000) (replicate n zero_op)
    zeros ℕ.zero = tt
    zeros (ℕ.suc n) = (omega arith, zeros n)

tick-no_leg_untimed_example :
    let m' = (on_fill before_fill (pos 0) false 8 (pos 480) 2_000_000_000).0 in
    tick_op m' 900_000_000_000 0 (op_at m' 0) ≡ (op_at m' 0, none)
unfolding init
tick-no_leg_untimed_example =
    tick-no_leg_untimed before_fill (pos 0) 8 (pos 480) 2_000_000_000 900_000_000_000 refl refl refl
      refl
