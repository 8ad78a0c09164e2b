-- ===== src/Lifecycle/Tests.antt =====
-- Runs of the tracker, and the theorems at concrete records.
use polymarket_trade_engine.Prelude.{ℕ, ◌≡◌, refl, true, none, List, [], ◌∷◌, arith, ℤ, pos}
use polymarket_trade_engine.Micro.{Micro, micro_double}
use polymarket_trade_engine.Lifecycle.{
  State, Opportunity, Tracker, NewSignal, init, new_opportunity,
}
use polymarket_trade_engine.Lifecycle.Fill.{FillEvent, fill_record, fill_leg, fill_state}
use polymarket_trade_engine.Lifecycle.Complete.{complete_record}
use polymarket_trade_engine.Lifecycle.Legs.{is_both, is_hedged_pair, is_fill_state, fill_record_lem}
use polymarket_trade_engine.Lifecycle.Inv.{IsTracker}
use polymarket_trade_engine.Lifecycle.Run.{
  Call, signals, pairs, fills, completes_market, computes, run, run-init-IsTracker,
}

abbrev parity_signal : NewSignal Micro
parity_signal = record {
  signal_time = 1000;
  market_id = 7;
  strategy = pos 0;
  is_yes = pos 1;
  side = pos 1;
  theoretical_edge = pos 30_000;
  executable_edge = pos 20_000;
  expected_edge = pos 15_000;
  fill_prob = pos 600_000;
  requested_size = 100;
  expected_pnl = pos 1_500_000;
}

abbrev fill_of : ℕ → ℤ → ℕ → FillEvent Micro
fill_of order_id is_yes qty = record {
  signal_id = 42;
  order_id = order_id;
  is_yes = is_yes;
  fill_qty = qty;
  fill_price = pos 480;
  filled_edge = pos 10_000;
  latency_ms = pos 5_000_000;
  fees = pos 0;
  rebates = pos 0;
  slippage = pos 0;
  fill_id = 9;
}

-- Both legs filled, then settled.
abbrev calls : List (Call Micro)
calls =
    signals 42 parity_signal
    ∷ pairs 42 500 501 (pos 12_000)
    ∷ fills (fill_of 500 (pos 1) 100)
    ∷ fills (fill_of 501 (pos 0) 100)
    ∷ completes_market 7 (pos 0) (pos 1_000_000) (pos 0) (pos 10_000)
    ∷ computes none
    ∷ []

abbrev opened : Opportunity Micro
opened = new_opportunity 42 parity_signal

abbrev settled_one : Opportunity Micro
settled_one = complete_record (pos 0) (pos 0) (pos 0) opened

abbrev tracker : Tracker Micro
tracker = record {
  records = opened ∷ [];
  completed_count = 0;
  avg_theoretical_edge = pos 0;
  avg_executable_edge = pos 0;
  avg_realized_edge = pos 0;
  avg_adverse_selection = pos 0;
  avg_slippage = pos 0;
  total_expected_pnl = pos 0;
  total_realized_pnl = pos 0;
}

-- A fill of the YES leg, which covers one leg and not the pair.
one_leg : (fill_record (fill_of 500 (pos 1) 100) opened).state ≡ State.one_leg_filled
unfolding fill_record fill_state fill_leg new_opportunity
one_leg = refl

run-init-IsTracker_example : IsTracker (run init calls)
run-init-IsTracker_example = run-init-IsTracker calls

fill_record_lem_example :
    let r' = fill_record (fill_of 500 (pos 1) 60) opened in
    (r'.leg_a.filled_size ≡ 60)
    × (r'.leg_b.filled_size ≡ 0)
    × (is_both r'.state ≡ is_hedged_pair r')
    × (is_fill_state r'.state ≡ true)
unfolding new_opportunity
fill_record_lem_example =
    fill_record_lem (fill_of 500 (pos 1) 60) opened (omega arith) (omega arith)
