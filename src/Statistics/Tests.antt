-- ===== src/Statistics/Tests.antt =====
-- A day of both strategies, and the theorems there.
use polymarket_trade_engine.Prelude.{
  ◌≡◌, refl, true, false, Option, some, List, [], ◌∷◌, ◌++◌, take, length, CString, pos, arith,
}
use polymarket_trade_engine.Double.{whole}
use polymarket_trade_engine.Micro.{Micro, micro_double}
use polymarket_trade_engine.Stdio.{Text}
use polymarket_trade_engine.Statistics.File.{save, init, record_settlement}
use polymarket_trade_engine.Statistics.{
  StatsTracker, Settlement, empty, max_returns, keep_trade, record_signal, record_order,
  record_fill, record_cancel,
}
use polymarket_trade_engine.Statistics.Run.{Call, apply, run, IsTracked, run-empty-IsTracked}
use polymarket_trade_engine.Statistics.Settled.{trades, run-settled}
use polymarket_trade_engine.Statistics.Persist.{Restored, init-save}

abbrev won : Settlement Micro
won = record {
  strategy = pos 0;
  is_win = true;
  pnl = whole 5;
  cost_basis = whole 50;
  realized_edge = whole 1;
}

abbrev lost : Settlement Micro
lost = record {
  strategy = pos 1;
  is_win = false;
  pnl = micro_double.neg (whole 2);
  cost_basis = whole 20;
  realized_edge = whole 0;
}

abbrev calls : List (Call Micro)
calls =
    Call.signals (pos 0) true true (whole 1) (whole 1)
    ∷ Call.orders (pos 0) 40
    ∷ Call.fills (pos 0) (whole 0) (whole 1) (whole 2) (whole 3) false
    ∷ Call.settles won
    ∷ Call.cancels (pos 1)
    ∷ Call.settles lost
    ∷ []

abbrev day : StatsTracker Micro
day = run empty calls

-- What the path holds after the day.
abbrev files : CString → Option (Text Micro)
files path = some (save day)

abbrev path : CString
path = 115 ∷ 116 ∷ 46 ∷ 106 ∷ []

trades_computed : length day.settled_trades ≡ 2
unfolding run apply record_signal record_order record_fill record_cancel record_settlement
    keep_trade
trades_computed = refl

net_computed : day.strat_a.net_pnl ≡ whole 6
unfolding run apply record_signal record_order record_fill record_cancel record_settlement
    keep_trade
net_computed = refl

run-empty-IsTracked_example : IsTracked 6 (run empty calls)
run-empty-IsTracked_example = run-empty-IsTracked calls (omega arith)

run-settled_example : (run empty calls).settled_trades ≡ take max_returns ([] ++ trades calls)
run-settled_example = run-settled empty calls (omega arith)

init-save_example :
    let t = init (λ (x : Micro). x) files (some path) in
    Restored (λ (x : Micro). x) day.strat_a t.strat_a
    × Restored (λ (x : Micro). x) day.strat_b t.strat_b
    × (t.settled_trades ≡ [])
init-save_example = init-save (λ (x : Micro). x) files path day refl
